-- ===== src/Crypto/Header/RoundTrip.antt =====
-- The header's byte layout is read back, both ways.
use native.Mathlib.Nat.{div-add-mod, mod-lt}
use camvault.Prelude.{
  ℕ, zero, suc, ◌+◌, ◌-◌, ◌*◌, ◌/◌, ◌%◌, ◌^◌, ◌≤◌, ◌<◌, ◌≡◌, refl, sym, ap, ◌∙◌, [], ◌∷◌, ◌++◌,
  true, arith, length, length-append, length-take, length-drop, take, drop, take_left, drop_left,
  take-append-drop, drop-drop, All,
}
use camvault.Crypto.Bytes.{
  Bytes, IsByte, to_be, from_be, length-to_be, from_be-to_be, to_be-from_be,
}
use camvault.Crypto.Header.{
  Header, ok, magic, pack, new_header, parse_header, bytes_eq, IsSound, header_bytes,
}

bytes_eq_refl : (xs : Bytes) → bytes_eq xs xs ≡ true
unfolding bytes_eq
bytes_eq_refl [] = refl
bytes_eq_refl (x ∷ xs) = ground (arith, bytes_eq_refl xs)

bytes_eq→eq : (xs ys : Bytes) → bytes_eq xs ys ≡ true → xs ≡ ys
unfolding bytes_eq
bytes_eq→eq [] [] h = refl
bytes_eq→eq [] (y ∷ ys) h = cc
bytes_eq→eq (x ∷ xs) [] h = cc
bytes_eq→eq (x ∷ xs) (y ∷ ys) h = ground (arith, bytes_eq→eq xs ys)

-- A sound header's sizes fit their fields.
pub size-lt : (p c : ℕ) → 1 ≤ c → c ≤ 8 * 1024 * 1024 → (p + c - 1) / c < 2 ^ 32 → p < 256 ^ 8
size-lt p c k h few =
    let q : ℕ = (p + c - 1) / c in
    let e : c * q + (p + c - 1) % c ≡ p + c - 1 = div-add-mod (p + c - 1) c in
    let r : (p + c - 1) % c < c = mod-lt (p + c - 1) k in
    let m : c * q ≤ 8 * 1024 * 1024 * 2 ^ 32 = grind arith in omega arith

-- A header passes the checks with its own fields exactly when it is sound.
pub new_header-eq :
    (h : Header) → IsSound h → new_header h.plaintext_size h.chunk_size h.nonce_base ≡ ok h
unfolding new_header
new_header-eq h s = ground arith

pub new_header-IsSound :
    (p c : ℕ) (n : Bytes) (h : Header)
    → new_header p c n ≡ ok h
    → IsSound h × (h.plaintext_size ≡ p) × (h.chunk_size ≡ c) × (h.nonce_base ≡ n)
unfolding new_header
new_header-IsSound p c n h e = ground arith

All-take : (n : ℕ) (xs : Bytes) → All IsByte xs → All IsByte (take n xs)
All-take zero xs h = tt
All-take (suc n) [] h = tt
All-take (suc n) (x ∷ xs) h = (h.0, All-take n xs h.1)

All-drop : (n : ℕ) (xs : Bytes) → All IsByte xs → All IsByte (drop n xs)
All-drop zero xs h = h
All-drop (suc n) [] h = tt
All-drop (suc n) (x ∷ xs) h = All-drop n xs h.1

module _ (h : Header) (s : IsSound h) where
  pub length-pack : length (pack h) ≡ header_bytes
  unfolding pack
  length-pack = omega (
    arith,
    length-append magic (to_be 4 h.chunk_size ++ (to_be 8 h.plaintext_size ++ h.nonce_base)),
    length-append (to_be 4 h.chunk_size) (to_be 8 h.plaintext_size ++ h.nonce_base),
    length-append (to_be 8 h.plaintext_size) h.nonce_base,
    length-to_be 4 h.chunk_size,
    length-to_be 8 h.plaintext_size,
    s.nonce_size,
  )

  chunk_field : take 4 (drop 8 (pack h)) ≡ to_be 4 h.chunk_size
  unfolding pack
  chunk_field = take_left 4 (to_be 4 h.chunk_size) _ (length-to_be 4 h.chunk_size)

  tail_fields : drop 12 (pack h) ≡ to_be 8 h.plaintext_size ++ h.nonce_base
  unfolding pack
  tail_fields = drop_left 4 (to_be 4 h.chunk_size) _ (length-to_be 4 h.chunk_size)

  nonce_field : drop 20 (pack h) ≡ h.nonce_base
  nonce_field =
      sym (drop-drop 12 8 20 (pack h) refl)
      ∙ ap (drop 8) tail_fields
      ∙ drop_left 8 (to_be 8 h.plaintext_size) h.nonce_base (length-to_be 8 h.plaintext_size)

  plain_field : take 8 (drop 12 (pack h)) ≡ to_be 8 h.plaintext_size
  plain_field =
      ap (take 8) tail_fields
      ∙ take_left 8 (to_be 8 h.plaintext_size) h.nonce_base (length-to_be 8 h.plaintext_size)

  magic_field : take 8 (pack h) ≡ magic
  unfolding pack
  magic_field = refl

  -- Packing a sound header and parsing the 32 bytes gives the header back.
  pub parse_header-pack : parse_header (pack h) ≡ ok h
  unfolding parse_header
  parse_header-pack =
      rw
        (
          length-pack,
          magic_field,
          chunk_field,
          plain_field,
          nonce_field,
          from_be-to_be 4 h.chunk_size (omega (arith, s.max_chunk)),
          from_be-to_be 8 h.plaintext_size (
              size-lt h.plaintext_size h.chunk_size (omega (arith, s.min_chunk)) s.max_chunk
                s.few_chunks),
        )
        (new_header-eq h s)

parse_header_checks :
    (payload : Bytes) (h : Header)
    → parse_header payload ≡ ok h
    → (length payload ≡ header_bytes)
      × (bytes_eq (take 8 payload) magic ≡ true)
      × (new_header
            (from_be (take 8 (drop 12 payload)))
            (from_be (take 4 (drop 8 payload)))
            (drop 20 payload)
          ≡ ok h)
unfolding parse_header
parse_header_checks payload h e = ground arith

field_back :
    (w n : ℕ) (payload : Bytes)
    → All IsByte payload
    → n + w ≤ length payload
    → to_be w (from_be (take w (drop n payload))) ≡ take w (drop n payload)
field_back w n payload bytes fits =
    to_be-from_be w (take w (drop n payload))
      (All-take w (drop n payload) (All-drop n payload bytes))
      (omega (arith, length-take w (drop n payload), length-drop n payload))

regroup :
    (payload : Bytes)
    → take 8 payload ++ (take 4 (drop 8 payload) ++ (take 8 (drop 12 payload) ++ drop 20 payload))
      ≡ payload
regroup payload =
    ap (λ t. take 8 payload ++ (take 4 (drop 8 payload) ++ (take 8 (drop 12 payload) ++ t)))
      (sym (drop-drop 12 8 20 payload refl))
    ∙ ap (λ t. take 8 payload ++ (take 4 (drop 8 payload) ++ t))
        (take-append-drop 8 (drop 12 payload) ∙ sym (drop-drop 8 4 12 payload refl))
    ∙ ap (λ t. take 8 payload ++ t) (take-append-drop 4 (drop 8 payload))
    ∙ take-append-drop 8 payload

-- What the parser accepts is the packing of what it returns, and that header is sound.
pub pack-parse_header :
    (payload : Bytes) (h : Header)
    → All IsByte payload
    → parse_header payload ≡ ok h
    → (pack h ≡ payload) × IsSound h
unfolding pack
pack-parse_header payload h bytes e =
    let (len, sig, built) = parse_header_checks payload h e in
    let (sound, p, c, n) = new_header-IsSound _ _ _ h built in
    (
      rw
          (
            p,
            c,
            n,
            field_back 4 8 payload bytes (omega arith),
            field_back 8 12 payload bytes (omega arith),
          )
          (ap (λ t. t ++ (take 4 (drop 8 payload) ++ (take 8 (drop 12 payload) ++ drop 20 payload)))
              (sym (bytes_eq→eq (take 8 payload) magic sig))
            ∙ regroup payload),
      sound,
    )
