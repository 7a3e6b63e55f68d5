-- ===== src/Archive/Accumulator/Sealed.antt =====
-- What the accumulator's operations hand over and keep: every segment is in the batch or still in
-- the accumulator, in order, and the byte count is exact.
use camvault.Prelude.{
  ℕ, ◌+◌, ◌≡◌, refl, sym, ap, ◌∙◌, String, List, [], ◌∷◌, ◌++◌, Option, none, some, length, arith,
  append-nil, Bool-cases, inl, inr, max,
}
use camvault.Live.Segment.{Segment, total_bytes}
use camvault.Archive.Accumulator.{Floats, Batch, Accumulator, pop, add, tune, is_full}

module _ {F T : Type 0} where
  pub total_bytes-append :
      (xs ys : List (Segment F T)) → total_bytes (xs ++ ys) ≡ total_bytes xs + total_bytes ys
  total_bytes-append [] ys = omega arith
  total_bytes-append (x ∷ xs) ys = omega (arith, total_bytes-append xs ys)

  abbrev pub handed : Option (Batch F T) → List (Segment F T)
  handed none = []
  handed (some b) = b.segments

  -- An operation that turned the segments `xs` into a batch, if any, and the accumulator `a`.
  pub record Keeps (xs : List (Segment F T)) (r : Option (Batch F T) × Accumulator F T)
      : Type 0 where
    pub order : handed r.0 ++ r.1.segments ≡ xs
    pub counted : r.1.bytes ≡ total_bytes r.1.segments

module _ {F T : Type 0} (floats : Floats F) where
  pop_at :
      (ss : List (Segment F T)) (a : Accumulator F T) (id : String)
      → a.segments ≡ ss
      → a.bytes ≡ total_bytes ss
      → Keeps ss (pop floats a id)
  unfolding pop
  pop_at [] a id e n = rw (e, pop) (record { order = e; counted = n ∙ ap total_bytes (sym e) })
  pop_at (s ∷ ss) a id e n = rw (e, pop) (record { order = append-nil (s ∷ ss); counted = refl })

  -- `pop` hands over everything that is collected.
  pub pop-Keeps :
      (a : Accumulator F T) (id : String)
      → a.bytes ≡ total_bytes a.segments
      → Keeps a.segments (pop floats a id)
  pop-Keeps a id n = pop_at a.segments a id refl n

  -- Where the byte count is exact, `add` loses no segment and keeps the order: what it hands over,
  -- followed by what stays, is what was collected and the new segment, and the count stays exact.
  pub add-Keeps :
      (a : Accumulator F T) (s : Segment F T) (id : String)
      → a.bytes ≡ total_bytes a.segments
      → Keeps (a.segments ++ s ∷ []) (add floats a s id)
  unfolding add
  add-Keeps a s id n =
      let a' : Accumulator F T = record a {
        segments = a.segments ++ s ∷ [];
        duration = floats.add_seconds a.duration s.duration;
        bytes = a.bytes + length s.payload;
      } in
      let m : a'.bytes ≡ total_bytes a'.segments =
        omega (arith, n, total_bytes-append a.segments (s ∷ [])) in
      elim (Bool-cases (is_full floats a')) [
        | inl full ↦ rw full (pop-Keeps a' id m)
        | inr room ↦ rw room (record { order = refl; counted = m })
      ]

  -- Where the byte count is exact, what `tune` hands over under its new targets, followed by what stays,
  -- is what was collected, and the count stays exact.
  pub tune-Keeps :
      (a : Accumulator F T) (seconds : F) (bytes : ℕ) (id : String)
      → a.bytes ≡ total_bytes a.segments
      → Keeps a.segments (tune floats a seconds bytes id)
  unfolding tune
  tune-Keeps a seconds bytes id n =
      elim (Bool-cases (
        is_full floats
          (record a { target_seconds = floats.positive seconds; max_bytes = max 1 bytes }))) [
            | inl full ↦ rw full (pop-Keeps _ id n)
            | inr room ↦ rw room (record { order = refl; counted = n })
          ]
