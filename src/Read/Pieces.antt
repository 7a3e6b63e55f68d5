-- ===== src/Read/Pieces.antt =====
-- What a range takes from each chunk of an archive, and that the pieces make up the range.
use camvault.Prelude.{
  ℕ, zero, suc, ◌+◌, ◌-◌, ◌*◌, ◌≤◌, ◌<◌, ◌≡◌, refl, sym, ap, ap₂, ◌∙◌, List, [], ◌∷◌, ◌++◌, flatten,
  append-nil, min, max, arith, length, take, drop, slice, slice-append, slice-slice, length-take,
  length-drop,
}
use camvault.Crypto.Bytes.{Bytes}

-- `plain[max(0, start - offset) : min(len(plain), end - offset + 1)]`; with `stop` one past `end`.
abbrev pub piece : ℕ → ℕ → ℕ → Bytes → Bytes
piece start stop offset plain = slice plain (start - offset) (min (length plain) (stop - offset))

-- The pieces of `n` chunks of size `c`, from chunk `i` on.
unfoldable pub pieces : ℕ → Bytes → ℕ → ℕ → ℕ → ℕ → List Bytes
pieces c xs start stop zero i = []
pieces c xs start stop (suc n) i =
    piece start stop (i * c) (take c (drop (i * c) xs)) ∷ pieces c xs start stop n (i + 1)

module _ (c : ℕ) (xs : Bytes) (start stop : ℕ) (within : stop ≤ length xs)
    (ordered : start < stop) where
  -- One chunk's piece is the part of the range inside that chunk.
  piece-slice :
      (i o e : ℕ)
      → o ≡ i * c
      → e ≡ o + c
      → o < stop
      → start < e
      → piece start stop o (take c (drop o xs)) ≡ slice xs (max start o) (min stop e)
  piece-slice i o e q r below above =
      let len : length (take c (drop o xs)) ≡ min c (length xs - o) =
        length-take c (drop o xs) ∙ ap (min c) (length-drop o xs) in
      let cut : min (length (take c (drop o xs))) (stop - o) ≡ min c (stop - o) = omega arith in
      ap (slice (take c (drop o xs)) (start - o)) cut
      ∙ ap (λ t. slice (take t (drop o xs)) (start - o) (min c (stop - o))) {y = e - o}
          (omega arith)
      ∙ slice-slice xs o e (start - o) (min c (stop - o)) (max start o) (min stop e) (omega arith)
          (omega arith) (omega arith) (omega arith)

  flatten-pieces :
      (n i o e : ℕ)
      → o ≡ i * c
      → e ≡ o + suc n * c
      → start < o + c
      → o + n * c < stop
      → flatten (pieces c xs start stop (suc n) i) ≡ slice xs (max start o) (min stop e)
  unfolding pieces flatten
  flatten-pieces zero i o e q r above below =
      append-nil _
      ∙ ap (λ t. piece start stop t (take c (drop t xs))) (sym q)
      ∙ piece-slice i o e q (omega arith) (omega arith) (omega arith)
  flatten-pieces (suc n) i o e q r above below =
      let m : ℕ = o + c in
      ap₂ (λ a b. a ++ b)
        (ap (λ t. piece start stop t (take c (drop t xs))) (sym q)
          ∙ piece-slice i o m q refl (omega arith) (omega arith))
        (flatten-pieces n (i + 1) m e (omega arith) (omega arith) (omega arith) (omega arith))
      ∙ ap₂ (λ a b. slice xs (max start o) a ++ slice xs b (min stop e)) {y = m} {v = m}
          (omega arith) (omega arith)
      ∙ slice-append xs (max start o) m (min stop e) (omega arith) (omega arith)

  -- The pieces of the chunks from the one that holds the first byte to the one that holds the last.
  pub pieces-eq-slice :
      (first last : ℕ)
      → first * c ≤ start
      → start < (first + 1) * c
      → last * c < stop
      → stop ≤ (last + 1) * c
      → first ≤ last
      → flatten (pieces c xs start stop (last + 1 - first) first) ≡ slice xs start stop
  pieces-eq-slice first last a b d e order =
      let n : last + 1 - first ≡ suc (last - first) = omega arith in
      let m : first * c + (last - first) * c ≡ last * c =
        let d : ℕ = last - first in
        let w : last ≡ first + d = omega arith in omega (arith, ap (λ (t : ℕ). t * c) w) in
      ap (λ t. flatten (pieces c xs start stop t first)) n
      ∙ flatten-pieces (last - first) first (first * c) ((last + 1) * c) refl (omega arith)
          (omega arith) (omega arith)
      ∙ ap₂ (slice xs) (omega arith) (omega arith)
