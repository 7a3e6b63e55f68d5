-- ===== src/Crypto/Stream/Sealed.antt =====
-- The encrypted stream against its reference: the plaintext cut into chunks, one by one, however
-- the sources split it.
use camvault.Prelude.{
  ℕ, zero, suc, ◌+◌, ◌-◌, ◌*◌, ◌≤◌, ◌<◌, ◌≡◌, ◌≢◌, refl, sym, ap, ap₂, ◌∙◌, List, [], ◌∷◌, ◌++◌,
  false, inl, inr, arith, length, length-append, length-drop, take, drop, take_all, take-append_le,
  drop-append_le, flatten, append-nil, append_assoc, leb, ◌==◌, Bool-cases, leb→le, le→ltb,
}
use camvault.Crypto.Bytes.{Bytes}
use camvault.Crypto.Header.{Header, ok, pack, chunk_count, IsSound}
use camvault.Crypto.Header.RoundTrip.{new_header-eq}
use camvault.Crypto.Layout.Bounds.{chunk_count_bounds}
use camvault.Crypto.Cipher.{Aead, encrypt_chunk}
use camvault.Crypto.Stream.{emit, Drained, drain, finish, encrypt_from, encrypt_archive}

le_of_mul : (a b c : ℕ) → 1 ≤ c → a * c < (b + 1) * c → a ≤ b
le_of_mul a b c h k = grind arith

module _ (aead : Aead) (key digest : Bytes) (h : Header) where
  -- `n` chunks of the plaintext, the first under index `i`.
  unfoldable pub seal : ℕ → ℕ → Bytes → List Bytes
  seal zero i xs = []
  seal (suc n) i xs =
      encrypt_chunk aead key digest h i (take h.chunk_size xs)
      ∷ seal n (i + 1) (drop h.chunk_size xs)

  seal-suc :
      (m i : ℕ) (xs : Bytes)
      → suc i ≤ m
      → seal (m - i) i xs
        ≡ encrypt_chunk aead key digest h i (take h.chunk_size xs)
          ∷ seal (m - (i + 1)) (i + 1) (drop h.chunk_size xs)
  unfolding seal
  seal-suc m i xs room = let e : m - i ≡ suc (m - (i + 1)) = omega arith in rw e

  module _ (sized : 1 ≤ h.chunk_size) where
    -- What one source completes is sealed, and less than a chunk is left.
    record Drains (m i : ℕ) (pending ys : Bytes) (d : Drained) : Type 0 where
      sealed :
          seal (m - i) i (pending ++ ys) ≡ d.out ++ seal (m - d.index) d.index (d.pending ++ ys)
      short : length d.pending < h.chunk_size
      kept : d.index * h.chunk_size + length d.pending ≡ i * h.chunk_size + length pending

    drain-Drains :
        (fuel m i : ℕ) (pending ys : Bytes)
        → length pending ≤ fuel
        → i * h.chunk_size + length pending ≤ m * h.chunk_size
        → Drains m i pending ys (drain aead key digest h fuel pending i)
    unfolding drain
    drain-Drains zero m i pending ys enough fits = record {
      sealed = refl;
      short = omega arith;
      kept = refl;
    }
    drain-Drains (suc fuel) m i pending ys enough fits =
        elim (Bool-cases (leb h.chunk_size (length pending))) [
          | inr less ↦ rw less (record { sealed = refl; short = ground arith; kept = refl })
          | inl full ↦
              let le : h.chunk_size ≤ length pending = leb→le _ _ full in
              let room : suc i ≤ m = grind arith in
              let r : Drains m (i + 1) (drop h.chunk_size pending) ys _ =
                drain-Drains fuel m (i + 1) (drop h.chunk_size pending) ys
                  (omega (arith, length-drop h.chunk_size pending))
                  (omega (arith, length-drop h.chunk_size pending)) in
              rw full (record {
                sealed =
                    seal-suc m i (pending ++ ys) room
                    ∙ ap₂
                        (λ a b. encrypt_chunk aead key digest h i a ∷ seal (m - (i + 1)) (i + 1) b)
                        (take-append_le h.chunk_size pending ys le)
                        (drop-append_le h.chunk_size pending ys le)
                    ∙ ap (λ t. encrypt_chunk aead key digest h i (take h.chunk_size pending) ∷ t)
                        r.sealed;
                short = r.short;
                kept = omega (arith, r.kept, length-drop h.chunk_size pending);
              })
        ]

    -- The end of the input, where it has the declared length.
    finish_lem :
        (pending : Bytes) (i : ℕ)
        → length pending < h.chunk_size
        → i * h.chunk_size + length pending ≡ h.plaintext_size
        → finish aead key digest h pending h.plaintext_size i
          ≡ record { out = seal (chunk_count h - i) i pending; outcome = ok tt }
    unfolding finish seal
    finish_lem [] i short e =
        let (a, b) = chunk_count_bounds h sized in
        let q : chunk_count h ≡ i = grind (arith, le_of_mul) in
        let z : i - i ≡ 0 = omega arith in rw (q, z) (ground arith)
    finish_lem (x ∷ xs) i short e =
        let (a, b) = chunk_count_bounds h sized in
        let upper : chunk_count h ≤ i + 1 =
          le_of_mul (chunk_count h) (i + 1) h.chunk_size sized (omega arith) in
        let lower : i + 1 ≤ chunk_count h =
          le_of_mul (i + 1) (chunk_count h) h.chunk_size sized (omega arith) in
        let q : chunk_count h ≡ i + 1 = omega arith in
        let z : i + 1 - i ≡ 1 = omega arith in
        rw (q, z, take_all h.chunk_size (x ∷ xs) (omega arith)) (ground arith)

    -- However the sources split the plaintext, each chunk is sealed once and in order.
    encrypt_from_lem :
        (sources : List Bytes) (pending : Bytes) (consumed i : ℕ)
        → length pending < h.chunk_size
        → i * h.chunk_size + length pending ≡ consumed
        → consumed + length (flatten sources) ≡ h.plaintext_size
        → encrypt_from aead key digest h sources pending consumed i ≡ record {
          out = seal (chunk_count h - i) i (pending ++ flatten sources);
          outcome = ok tt;
        }
    unfolding encrypt_from flatten
    encrypt_from_lem [] pending consumed i short e total =
        let t : consumed ≡ h.plaintext_size = omega arith in
        rw (t, append-nil pending) (finish_lem pending i short (omega arith))
    encrypt_from_lem ([] ∷ ss) pending consumed i short e total =
        encrypt_from_lem ss pending consumed i short e total
    encrypt_from_lem ((b ∷ bs) ∷ ss) pending consumed i short e total =
        let s : Bytes = b ∷ bs in
        let len : length (s ++ flatten ss) ≡ length s + length (flatten ss) =
          length-append s (flatten ss) in
        let joined : length (pending ++ s) ≡ length pending + length s = length-append pending s in
        let (a, _) = chunk_count_bounds h sized in
        let d : Drained = drain aead key digest h (length (pending ++ s)) (pending ++ s) i in
        let r : Drains (chunk_count h) i (pending ++ s) (flatten ss) d =
          drain-Drains (length (pending ++ s)) (chunk_count h) i (pending ++ s) (flatten ss)
            (omega arith) (omega arith) in
        let not_empty : (length s == 0) ≡ false = ground arith in
        rw (not_empty, le→ltb h.plaintext_size (consumed + length s) (omega arith))
          (ap (emit d.out) (
              encrypt_from_lem ss d.pending (consumed + length s) d.index r.short
                (omega (arith, r.kept)) (omega arith))
            ∙ ap (λ t. record { out = t; outcome = ok tt })
                (sym r.sealed
                  ∙ ap (seal (chunk_count h - i) i) (append_assoc pending s (flatten ss))))

    -- A total that is not the declared one is refused at the latest when the sources end.
    encrypt_from_refuses :
        (sources : List Bytes) (pending : Bytes) (consumed i : ℕ)
        → consumed + length (flatten sources) ≢ h.plaintext_size
        → (encrypt_from aead key digest h sources pending consumed i).outcome ≢ ok tt
    unfolding encrypt_from flatten
    encrypt_from_refuses [] pending consumed i ne = ground arith
    encrypt_from_refuses ([] ∷ ss) pending consumed i ne =
        encrypt_from_refuses ss pending consumed i ne
    encrypt_from_refuses ((b ∷ bs) ∷ ss) pending consumed i ne =
        let s : Bytes = b ∷ bs in
        let len : length (s ++ flatten ss) ≡ length s + length (flatten ss) =
          length-append s (flatten ss) in
        let d : Drained = drain aead key digest h (length (pending ++ s)) (pending ++ s) i in
        ground (
          arith,
          encrypt_from_refuses ss d.pending (consumed + length s) d.index (λ q. ne (omega arith)),
        )

  -- With a sound header and sources of the declared length, the stream is the header and the sealed
  -- chunks, and ends well.
  pub encrypt_archive-eq :
      (sources : List Bytes)
      → IsSound h
      → length (flatten sources) ≡ h.plaintext_size
      → encrypt_archive aead key digest h.plaintext_size h.chunk_size h.nonce_base sources
        ≡ record { out = pack h ∷ seal (chunk_count h) 0 (flatten sources); outcome = ok tt }
  unfolding encrypt_archive
  encrypt_archive-eq sources s total =
      let z : chunk_count h - 0 ≡ chunk_count h = omega arith in
      rw (new_header-eq h s) (
        ap (emit (pack h ∷ [])) (
          encrypt_from_lem (omega (arith, s.min_chunk)) sources [] 0 0 (omega (arith, s.min_chunk))
            (omega arith) (omega arith)
          ∙ ap (λ t. record { out = seal t 0 (flatten sources); outcome = ok tt }) z))

  -- With a sound header and sources of any other total length, the stream ends in an error.
  pub encrypt_archive_refuses :
      (sources : List Bytes)
      → IsSound h
      → length (flatten sources) ≢ h.plaintext_size
      → (encrypt_archive aead key digest h.plaintext_size h.chunk_size h.nonce_base sources).outcome
        ≢ ok tt
  unfolding encrypt_archive
  encrypt_archive_refuses sources s ne =
      rw (new_header-eq h s)
        (encrypt_from_refuses (omega (arith, s.min_chunk)) sources [] 0 0 (λ q. ne (omega arith)))
