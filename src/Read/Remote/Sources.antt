-- ===== src/Read/Remote/Sources.antt =====
-- The loops of the remote read, chunk by chunk: what was received and not yet decrypted, with what is
-- still to come, is the sealed rest.
use camvault.Prelude.{
  ℕ, zero, suc, ◌+◌, ◌-◌, ◌*◌, ◌≤◌, ◌<◌, ◌≡◌, refl, sym, ap, ◌∙◌, List, [], ◌∷◌, ◌++◌, flatten,
  true, false, not, ◌&&◌, none, min, arith, length, take, drop, slice_empty, ltb, leb, ◌==◌,
  take_left, drop_left, take-append_le, drop-append_le, append-nil, append_assoc, inl, inr,
  Bool-cases, length-append, length-take, length-drop, take-append, drop-append_add, ltb_false→le,
  ltb→lt, ==_iff, lt→leb, drop-drop,
}
use camvault.Crypto.Bytes.{Bytes}
use camvault.Crypto.Header.{Header, ok, IsSound, chunk_count, tag_bytes}
use camvault.Crypto.Cipher.{Aead, encrypt_chunk, decrypt_chunk}
use camvault.Crypto.Cipher.Nonces.{plaintext_chunk_size-eq, decrypt-encrypt_chunk}
use camvault.Crypto.Stream.Sealed.{seal}
use camvault.Crypto.Contents.{chunk, length-encrypt_chunk}
use camvault.Read.Pieces.{piece, pieces}
use camvault.Read.Body.{Body}
use camvault.Read.Remote.{Progress, with_plain, decrypt_pending, after_source, decrypt_sources}

module _ (aead : Aead) (key digest : Bytes) (h : Header) (plaintext : Bytes) (s : IsSound h)
    (total : length plaintext ≡ h.plaintext_size) (last_chunk start last : ℕ) where
  abbrev pub size_of : ℕ → ℕ
  size_of i = min h.chunk_size (h.plaintext_size - i * h.chunk_size)

  -- The ciphertext of `n` chunks from `i` on, and what the range takes from them.
  abbrev pub sealed : ℕ → ℕ → Bytes
  sealed n i = flatten (seal aead key digest h n i (drop (i * h.chunk_size) plaintext))

  abbrev pub wanted : ℕ → ℕ → Bytes
  wanted n i = flatten (pieces h.chunk_size plaintext start (last + 1) n i)

  sealed-suc :
      (n i : ℕ)
      → sealed (suc n) i
        ≡ encrypt_chunk aead key digest h i (chunk h plaintext i) ++ sealed n (i + 1)
  unfolding seal flatten
  sealed-suc n i =
      ap
        (λ t.
          encrypt_chunk aead key digest h i (chunk h plaintext i)
          ++ flatten (seal aead key digest h n (i + 1) t))
        (drop-drop (i * h.chunk_size) h.chunk_size ((i + 1) * h.chunk_size) plaintext (omega arith))

  length-cipher :
      (i : ℕ)
      → length (encrypt_chunk aead key digest h i (chunk h plaintext i)) ≡ size_of i + tag_bytes
  length-cipher i = omega (
    arith,
    length-encrypt_chunk aead key digest h i (chunk h plaintext i),
    length-take h.chunk_size (drop (i * h.chunk_size) plaintext),
    length-drop (i * h.chunk_size) plaintext,
  )

  record Progressed (n i : ℕ) (rest : Bytes) (p : Progress) : Type 0 where
    left : ℕ
    count : p.index + left ≡ i + n
    good : p.failure ≡ none
    yielded : flatten p.out ++ wanted left p.index ≡ wanted n i
    kept : p.pending ++ rest ≡ sealed left p.index
    short : 1 ≤ left → length p.pending < size_of p.index + tag_bytes

  -- A decrypted chunk goes before what the later ones yield.
  with_plain-Progressed :
      (n i : ℕ) (rest : Bytes) (p : Progress) (pending : Bytes)
      → Progressed n (i + 1) rest p
      → Progressed (suc n) i rest (
          with_plain aead key digest h last_chunk start last p pending i (ok (chunk h plaintext i)))
  unfolding with_plain pieces flatten
  with_plain-Progressed n i rest p pending r =
      elim (Bool-cases (
        ltb (start - i * h.chunk_size)
          (min (length (chunk h plaintext i)) (last + 1 - i * h.chunk_size)))) [
            | inl taken ↦ rw taken (record {
              left = r.left;
              count = omega (arith, r.count);
              good = r.good;
              yielded =
                  append_assoc _ (flatten p.out) _
                  ∙ ap (λ t. piece start (last + 1) (i * h.chunk_size) (chunk h plaintext i) ++ t)
                      r.yielded;
              kept = r.kept;
              short = r.short;
            })
            | inr nothing ↦ rw nothing (record {
              left = r.left;
              count = omega (arith, r.count);
              good = r.good;
              yielded =
                  r.yielded
                  ∙ sym (
                      ap (λ t. t ++ wanted n (i + 1))
                        (slice_empty (chunk h plaintext i) _ _ (ltb_false→le _ _ nothing)));
              kept = r.kept;
              short = r.short;
            })
          ]

  decrypt-chunk :
      (i : ℕ)
      → i < chunk_count h
      → decrypt_chunk aead key digest h i (encrypt_chunk aead key digest h i (chunk h plaintext i))
        ≡ ok (chunk h plaintext i)
  decrypt-chunk i k = decrypt-encrypt_chunk aead key digest h i k (chunk h plaintext i) (
      omega (
        arith,
        length-take h.chunk_size (drop (i * h.chunk_size) plaintext),
        length-drop (i * h.chunk_size) plaintext,
      ))

  decrypt_pending-Progressed :
      (n i : ℕ) (pending rest : Bytes)
      → i + n ≤ chunk_count h
      → pending ++ rest ≡ sealed n i
      → Progressed n i rest (decrypt_pending aead key digest h last_chunk start last n pending i)
  unfolding decrypt_pending flatten
  decrypt_pending-Progressed zero i pending rest fits e = record {
    left = 0;
    count = refl;
    good = refl;
    yielded = refl;
    kept = e;
    short = λ q. absurd (omega arith);
  }
  decrypt_pending-Progressed (suc n) i pending rest fits e =
      rw (plaintext_chunk_size-eq h i (omega arith))
        (elim (Bool-cases (ltb (length pending) (size_of i + tag_bytes))) [
          | inl less ↦ rw less (record {
            left = suc n;
            count = refl;
            good = refl;
            yielded = refl;
            kept = e;
            short = λ _. ltb→lt _ _ less;
          })
          | inr more ↦
              let k : ℕ = size_of i + tag_bytes in
              let le : k ≤ length pending = ltb_false→le _ _ more in
              let whole : pending ++ rest ≡ _ = e ∙ sealed-suc n i in
              let head : take k pending ≡ encrypt_chunk aead key digest h i (chunk h plaintext i) =
                sym (take-append_le k pending rest le)
                ∙ ap (take k) whole
                ∙ take_left k _ _ (length-cipher i) in
              let tail : drop k pending ++ rest ≡ sealed n (i + 1) =
                sym (drop-append_le k pending rest le)
                ∙ ap (drop k) whole
                ∙ drop_left k _ _ (length-cipher i) in
              let r : Progressed n (i + 1) rest _ =
                decrypt_pending-Progressed n (i + 1) (drop k pending) rest (omega arith) tail in
              rw (more, head, decrypt-chunk i (omega arith))
                (with_plain-Progressed n i rest _ (drop k pending) r)
        ])

  sealed_positive : (n i : ℕ) → 1 ≤ n → size_of i + tag_bytes ≤ length (sealed n i)
  sealed_positive zero i q = absurd (omega arith)
  sealed_positive (suc n) i q = omega (
    arith,
    ap length (sealed-suc n i),
    length-append (encrypt_chunk aead key digest h i (chunk h plaintext i)) (sealed n (i + 1)),
    length-cipher i,
  )

  -- What the generator still owes, between two chunks of the response.
  pub record Owes (n i skip remaining : ℕ) (pending : Bytes) (sources : List Bytes) : Type 0 where
    pub count : i + n ≡ last_chunk + 1
    pub more : 1 ≤ remaining
    pub enough : length (take remaining (drop skip (flatten sources))) ≡ remaining
    pub kept : pending ++ take remaining (drop skip (flatten sources)) ≡ sealed n i
    pub short : 1 ≤ n → length pending < size_of i + tag_bytes

  -- A chunk that lies wholly before the wanted bytes.
  skip-Owes :
      (source : Bytes) (sources : List Bytes) (n i skip remaining : ℕ) (pending : Bytes)
      → (not (skip == 0) && length (drop (min skip (length source)) source) == 0) ≡ true
      → Owes n i skip remaining pending (source ∷ sources)
      → Owes n i (skip - min skip (length source)) remaining pending sources
  unfolding flatten
  skip-Owes source sources n i skip remaining pending skipped o =
      let gone : length (drop (min skip (length source)) source) ≡ 0 = ground arith in
      let le : length source ≤ skip =
        omega (arith, length-drop (min skip (length source)) source) in
      let q : drop skip (source ++ flatten sources)
          ≡ drop (skip - min skip (length source)) (flatten sources) =
        drop-append_add (length source) (skip - min skip (length source)) skip source
          (flatten sources) refl (omega arith) in
      record {
        count = o.count;
        more = o.more;
        enough = sym (ap (λ t. length (take remaining t)) q) ∙ o.enough;
        kept = sym (ap (λ t. pending ++ take remaining t) q) ∙ o.kept;
        short = o.short;
      }

  -- A chunk that reaches the wanted bytes: what it adds, and what is still to come.
  reached-rest :
      (source : Bytes) (sources : List Bytes) (skip remaining : ℕ)
      → (not (skip == 0) && length (drop (min skip (length source)) source) == 0) ≡ false
      → (skip - min skip (length source) ≡ 0)
        × (take remaining (drop skip (flatten (source ∷ sources)))
            ≡ take remaining (drop (min skip (length source)) source)
              ++ take
                  (remaining - length (take remaining (drop (min skip (length source)) source)))
                  (flatten sources))
  unfolding flatten
  reached-rest source sources skip remaining reached =
      let len : length (drop (min skip (length source)) source)
          ≡ length source - min skip (length source) =
        length-drop (min skip (length source)) source in
      let le : skip ≤ length source = ground arith in
      let q : min skip (length source) ≡ skip = omega arith in
      (
        omega arith,
        ap (take remaining) (
              drop-append_le skip source (flatten sources) le
              ∙ ap (λ t. drop t source ++ flatten sources) (sym q))
            ∙ take-append remaining (drop (min skip (length source)) source) (flatten sources),
      )

  flatten-append : (xs ys : List Bytes) → flatten (xs ++ ys) ≡ flatten xs ++ flatten ys
  unfolding flatten
  flatten-append [] ys = refl
  flatten-append (x ∷ xs) ys = ap (λ t. x ++ t) (flatten-append xs ys) ∙ sym (append_assoc x _ _)

  eq_zero : (n : ℕ) → (1 ≤ n → ⊥) → n ≡ 0
  eq_zero zero f = refl
  eq_zero (suc n) f = absurd (f (omega arith))

  sealed_none : (n i : ℕ) → n ≡ 0 → length (sealed n i) ≡ 0
  unfolding seal flatten
  sealed_none n i e = rw e

  wanted_none : (n i : ℕ) → n ≡ 0 → wanted n i ≡ []
  unfolding pieces flatten
  wanted_none n i e = rw e

  -- The end of one round: all is there, or the next chunk is asked for.
  after_source-lem :
      (n i skip left : ℕ) (rest : Bytes) (p : Progress) (next : Body) (r : Progressed n i rest p)
      → i + n ≡ last_chunk + 1
      → skip ≡ 0
      → length rest ≡ left
      → (1 ≤ left → (next.failure ≡ none) × (flatten next.out ≡ wanted r.left p.index))
      → ((after_source aead key digest h last_chunk start last p skip left next p.failure).failure
          ≡ none)
        × (flatten
              (after_source aead key digest h last_chunk start last p skip left next p.failure).out
            ≡ wanted n i)
  unfolding after_source
  after_source-lem n i skip left rest p next r count z len go = elim (Bool-cases (left == 0)) [
    | inl all ↦
        let none_left : r.left ≡ 0 = eq_zero r.left (λ q. absurd (
          omega (
            arith,
            len,
            (==_iff left 0).0 all,
            r.short q,
            sealed_positive r.left p.index q,
            ap length r.kept,
            length-append p.pending rest,
          ))) in
        let empty : (length p.pending == 0) ≡ true = (==_iff _ _).1 (
          omega (
            arith,
            sealed_none r.left p.index none_left,
            ap length r.kept,
            length-append p.pending rest,
          )) in
        let past : leb p.index last_chunk ≡ false = lt→leb _ _ (omega (arith, r.count)) in
        rw (r.good, all, z, empty, past)
          (
            refl,
            ap flatten (append-nil p.out)
                ∙ sym (append-nil (flatten p.out))
                ∙ ap (λ t. flatten p.out ++ t) (sym (wanted_none r.left p.index none_left))
                ∙ r.yielded,
          )
    | inr some_left ↦
        let (good, same) = go (ground arith) in
        rw (r.good, some_left)
          (good, flatten-append p.out next.out ∙ ap (λ t. flatten p.out ++ t) same ∙ r.yielded)
  ]

  module _ (bounded : last_chunk < chunk_count h) where
    pub decrypt_sources_lem :
        (sources : List Bytes) (n i skip remaining : ℕ) (pending : Bytes)
        → Owes n i skip remaining pending sources
        → ((decrypt_sources aead key digest h last_chunk start last sources skip pending remaining
              i).failure
            ≡ none)
          × (flatten
                (decrypt_sources aead key digest h last_chunk start last sources skip pending
                  remaining i).out
              ≡ wanted n i)
    unfolding decrypt_sources flatten
    decrypt_sources_lem [] n i skip remaining pending o = absurd (
        omega (
          arith,
          o.enough,
          o.more,
          length-take remaining (drop {A = ℕ} skip []),
          length-drop {A = ℕ} skip [],
        ))
    decrypt_sources_lem (source ∷ sources) n i skip remaining pending o =
        elim (Bool-cases
          (not (skip == 0) && length (drop (min skip (length source)) source) == 0)) [
            | inl skipped ↦ rw skipped (
                decrypt_sources_lem sources n i (skip - min skip (length source)) remaining pending
                  (skip-Owes source sources n i skip remaining pending skipped o))
            | inr reached ↦
                let accepted : Bytes = take remaining (drop (min skip (length source)) source) in
                let left : ℕ = remaining - length accepted in
                let rest : Bytes = take left (flatten sources) in
                let (z, split) = reached-rest source sources skip remaining reached in
                let q : last_chunk + 1 - i ≡ n = omega (arith, o.count) in
                let len : length rest ≡ left =
                  omega (arith, o.enough, ap length split, length-append accepted rest) in
                let r : Progressed n i rest _ =
                  decrypt_pending-Progressed n i (pending ++ accepted) rest (omega (arith, o.count))
                    (append_assoc pending accepted rest
                      ∙ ap (λ t. pending ++ t) (sym split)
                      ∙ o.kept) in
                let p : Progress =
                  decrypt_pending aead key digest h last_chunk start last n (pending ++ accepted)
                    i in
                rw (reached, q)
                  (after_source-lem n i (skip - min skip (length source)) left rest p _ r o.count z
                    len
                    (λ more.
                      decrypt_sources_lem sources r.left p.index (skip - min skip (length source))
                        left p.pending
                        (record {
                          count = r.count ∙ o.count;
                          more = more;
                          enough = ap (λ t. length (take left (drop t (flatten sources)))) z ∙ len;
                          kept =
                              ap (λ t. p.pending ++ take left (drop t (flatten sources))) z
                              ∙ r.kept;
                          short = r.short;
                        })))
          ]
