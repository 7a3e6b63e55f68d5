-- ===== src/Crypto/Contents.antt =====
-- The stored object, byte by byte: where each chunk lies and what it decrypts to.
use camvault.Prelude.{
  ℕ, zero, suc, ◌+◌, ◌-◌, ◌*◌, ◌≤◌, ◌<◌, ◌≡◌, refl, ap, ap₂, ◌∙◌, ◌∷◌, ◌++◌, flatten, min, arith,
  length, length-append, length-take, length-drop, take, drop, take_left, drop-append_add,
  drop-drop, slice, replicate, take-append, take_all,
}
use camvault.Crypto.Bytes.{Bytes}
use camvault.Crypto.Header.{Header, ok, pack, chunk_count, IsSound, tag_bytes, header_bytes}
use camvault.Crypto.Header.RoundTrip.{length-pack, new_header-eq}
use camvault.Crypto.Layout.{encrypted_size}
use camvault.Crypto.Layout.Bounds.{chunk_count_bounds, lt-chunk_count}
use camvault.Crypto.Cipher.{Aead, encrypt_chunk, decrypt_chunk}
use camvault.Crypto.Cipher.Nonces.{decrypt-encrypt_chunk}
use camvault.Crypto.Stream.Sealed.{seal}

-- The plaintext of chunk `i`.
abbrev pub chunk : Header → Bytes → ℕ → Bytes
chunk h plaintext i = take h.chunk_size (drop (i * h.chunk_size) plaintext)

module _ (aead : Aead) (key digest : Bytes) (h : Header) where
  pub length-encrypt_chunk :
      (i : ℕ) (xs : Bytes) → length (encrypt_chunk aead key digest h i xs) ≡ length xs + tag_bytes
  unfolding encrypt_chunk
  length-encrypt_chunk i xs = aead.length-encrypt key _ xs _

  length-seal :
      (n i : ℕ) (xs : Bytes)
      → length xs ≤ n * h.chunk_size
      → length (flatten (seal aead key digest h n i xs)) ≡ length xs + n * tag_bytes
  unfolding seal flatten
  length-seal zero i xs fits = omega arith
  length-seal (suc n) i xs fits = omega (
    arith,
    length-append (encrypt_chunk aead key digest h i (take h.chunk_size xs))
        (flatten (seal aead key digest h n (i + 1) (drop h.chunk_size xs))),
    length-encrypt_chunk i (take h.chunk_size xs),
    length-take h.chunk_size xs,
    length-drop h.chunk_size xs,
    length-seal n (i + 1) (drop h.chunk_size xs) (omega (arith, length-drop h.chunk_size xs)),
  )

  drop-seal :
      (j n m i k o p : ℕ) (xs : Bytes)
      → j * h.chunk_size ≤ length xs
      → m ≡ j + n
      → k ≡ i + j
      → o ≡ j * (h.chunk_size + tag_bytes)
      → p ≡ j * h.chunk_size
      → drop o (flatten (seal aead key digest h m i xs))
        ≡ flatten (seal aead key digest h n k (drop p xs))
  unfolding seal flatten
  drop-seal zero n m i k o p xs full em ek eo ep =
      let qm : m ≡ n = omega arith in
      let qk : k ≡ i = omega arith in
      let qo : o ≡ 0 = omega arith in let qp : p ≡ 0 = omega arith in rw (qm, qk, qo, qp)
  drop-seal (suc j) n zero i k o p xs full em ek eo ep = absurd (omega arith)
  drop-seal (suc j) n (suc m) i k o p xs full em ek eo ep =
      let size : ℕ = h.chunk_size + tag_bytes in
      drop-append_add size (o - size) o (encrypt_chunk aead key digest h i (take h.chunk_size xs)) _
        (omega (arith, length-encrypt_chunk i (take h.chunk_size xs), length-take h.chunk_size xs))
        (omega arith)
      ∙ drop-seal j n m (i + 1) k (o - size) (p - h.chunk_size) (drop h.chunk_size xs)
          (omega (arith, length-drop h.chunk_size xs)) (omega arith) (omega arith) (omega arith)
          (omega arith)
      ∙ ap (λ t. flatten (seal aead key digest h n k t))
          (drop-drop h.chunk_size (p - h.chunk_size) p xs (omega arith))

  take-seal :
      (n i size : ℕ) (xs : Bytes)
      → 1 ≤ n
      → size ≡ min h.chunk_size (length xs) + tag_bytes
      → take size (flatten (seal aead key digest h n i xs))
        ≡ encrypt_chunk aead key digest h i (take h.chunk_size xs)
  unfolding seal flatten
  take-seal zero i size xs some_left e = absurd (omega arith)
  take-seal (suc n) i size xs some_left e =
      take_left size (encrypt_chunk aead key digest h i (take h.chunk_size xs)) _
        (omega (arith, length-encrypt_chunk i (take h.chunk_size xs), length-take h.chunk_size xs))

  pub length-seal-min :
      (n i : ℕ) (xs : Bytes)
      → length (flatten (seal aead key digest h n i xs))
        ≡ min (n * h.chunk_size) (length xs) + n * tag_bytes
  unfolding seal flatten
  length-seal-min zero i xs = omega arith
  length-seal-min (suc n) i xs = omega (
    arith,
    length-append (encrypt_chunk aead key digest h i (take h.chunk_size xs))
        (flatten (seal aead key digest h n (i + 1) (drop h.chunk_size xs))),
    length-encrypt_chunk i (take h.chunk_size xs),
    length-take h.chunk_size xs,
    length-drop h.chunk_size xs,
    length-seal-min n (i + 1) (drop h.chunk_size xs),
  )

  take-seal_many :
      (n k i size : ℕ) (xs : Bytes)
      → n ≤ k
      → size ≡ length (flatten (seal aead key digest h n i xs))
      → take size (flatten (seal aead key digest h k i xs))
        ≡ flatten (seal aead key digest h n i xs)
  unfolding seal flatten
  take-seal_many zero k i size xs le e =
      ap (λ t. take t (flatten (seal aead key digest h k i xs))) e
  take-seal_many (suc n) zero i size xs le e = absurd (omega arith)
  take-seal_many (suc n) (suc k) i size xs le e =
      let first : Bytes = encrypt_chunk aead key digest h i (take h.chunk_size xs) in
      let more : Bytes = flatten (seal aead key digest h n (i + 1) (drop h.chunk_size xs)) in
      let q : length (first ++ more) ≡ length first + length more = length-append first more in
      take-append size first (flatten (seal aead key digest h k (i + 1) (drop h.chunk_size xs)))
      ∙ ap₂ (λ a b. a ++ take b (flatten (seal aead key digest h k (i + 1) (drop h.chunk_size xs))))
          (take_all size first (omega arith)) (omega (arith, length-take size first))
      ∙ ap (λ t. first ++ t)
          (take-seal_many n k (i + 1) (length more) (drop h.chunk_size xs) (omega arith) refl)

  -- The object that a run stores for a plaintext.
  unfoldable pub stored : Bytes → Bytes
  unfolding flatten
  stored plaintext = flatten (pack h ∷ seal aead key digest h (chunk_count h) 0 plaintext)

  module _ (plaintext : Bytes) (s : IsSound h) (total : length plaintext ≡ h.plaintext_size) where
    sized : 1 ≤ h.chunk_size
    sized = omega (arith, s.min_chunk)

    -- For a sound header and a plaintext of its declared length, `encrypted_size` is the length of
    -- the stored object.
    pub length-stored :
        encrypted_size h.plaintext_size h.chunk_size ≡ ok (length (stored plaintext))
    unfolding encrypted_size stored chunk_count
    length-stored =
        rw
          (new_header-eq (record h { nonce_base = replicate 12 0 })
            (record {
              min_chunk = s.min_chunk;
              max_chunk = s.max_chunk;
              few_chunks = s.few_chunks;
              nonce_size = refl;
            }))
          (ap ok sizes)
      where
        sizes :
            header_bytes + h.plaintext_size + chunk_count h * tag_bytes
            ≡ length (pack h ++ flatten (seal aead key digest h (chunk_count h) 0 plaintext))
        sizes = omega (
          arith,
          length-append (pack h) (flatten (seal aead key digest h (chunk_count h) 0 plaintext)),
          length-pack h s,
          length-seal (chunk_count h) 0 plaintext (omega (arith, (chunk_count_bounds h sized).0)),
        )

    -- From the start of chunk `i` on the object holds `n` chunks, in order.
    pub slice-stored_many :
        (i n size : ℕ)
        → i + n ≤ chunk_count h
        → i < chunk_count h
        → size ≡ length (flatten (seal aead key digest h n i (drop (i * h.chunk_size) plaintext)))
        → take size (drop (header_bytes + i * (h.chunk_size + tag_bytes)) (stored plaintext))
          ≡ flatten (seal aead key digest h n i (drop (i * h.chunk_size) plaintext))
    unfolding stored
    slice-stored_many i n size fits k e =
        let below : i * h.chunk_size < h.plaintext_size = lt-chunk_count h i sized k in
        ap (take size) (
          drop-append_add header_bytes (i * (h.chunk_size + tag_bytes)) _ (pack h) _
            (length-pack h s) refl
          ∙ drop-seal i (chunk_count h - i) (chunk_count h) 0 i (i * (h.chunk_size + tag_bytes))
              (i * h.chunk_size) plaintext (omega arith) (omega arith) (omega arith) refl refl)
        ∙ take-seal_many n (chunk_count h - i) i size (drop (i * h.chunk_size) plaintext)
            (omega arith) e

    module _ (i : ℕ) (k : i < chunk_count h) where
      abbrev pub chunk_bytes : ℕ
      chunk_bytes = min h.chunk_size (h.plaintext_size - i * h.chunk_size)

      abbrev pub chunk_start : ℕ
      chunk_start = header_bytes + i * (h.chunk_size + tag_bytes)

      -- Chunk `i` of the stored object is the encryption of chunk `i` of the plaintext.
      pub slice-stored :
          slice (stored plaintext) chunk_start (chunk_start + (chunk_bytes + tag_bytes))
          ≡ encrypt_chunk aead key digest h i (chunk h plaintext i)
      unfolding stored
      slice-stored =
          let size : ℕ = chunk_bytes + tag_bytes in
          let q : chunk_start + size - chunk_start ≡ size = omega arith in
          let below : i * h.chunk_size < h.plaintext_size = lt-chunk_count h i sized k in
          ap
            (λ t. take t (
              drop chunk_start
                (pack h ++ flatten (seal aead key digest h (chunk_count h) 0 plaintext))))
            q
          ∙ ap (take size) (
              drop-append_add header_bytes (i * (h.chunk_size + tag_bytes)) chunk_start (pack h) _
                (length-pack h s) refl
              ∙ drop-seal i (chunk_count h - i) (chunk_count h) 0 i (i * (h.chunk_size + tag_bytes))
                  (i * h.chunk_size) plaintext (omega arith) (omega arith) (omega arith) refl refl)
          ∙ take-seal (chunk_count h - i) i size (drop (i * h.chunk_size) plaintext) (omega arith)
              (omega (arith, length-drop (i * h.chunk_size) plaintext))

      -- For a sound header and a plaintext of its declared length, the bytes of the stored object at
      -- the offset of chunk `i`, as many as its size and the tag, decrypt to chunk `i` of the plaintext.
      pub decrypt_chunk-stored :
          decrypt_chunk aead key digest h i
            (slice (stored plaintext) chunk_start (chunk_start + (chunk_bytes + tag_bytes)))
          ≡ ok (chunk h plaintext i)
      decrypt_chunk-stored =
          ap (decrypt_chunk aead key digest h i) slice-stored
          ∙ decrypt-encrypt_chunk aead key digest h i k (chunk h plaintext i) (
              omega (
                arith,
                length-take h.chunk_size (drop (i * h.chunk_size) plaintext),
                length-drop (i * h.chunk_size) plaintext,
              ))
