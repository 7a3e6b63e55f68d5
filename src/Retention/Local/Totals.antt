-- ===== src/Retention/Local/Totals.antt =====
-- The total that the passes over local files keep is that of the files on the list.
use camvault.Prelude.{
  ℕ, ◌+◌, ◌-◌, ◌<◌, ◌≡◌, inl, inr, List, [], ◌∷◌, Bool, Option, some, arith, Option-cases,
}
use camvault.Retention.Local.{Media, Counts, Progress, delete_media, count, total_of, shrink}
use camvault.Retention.Local.Shrinks.{shrink_cases}

-- What a deletion frees is the size of the file.
abbrev pub FreesSize : (Media → Option ℕ) → Type 0
FreesSize unlinks = (f : Media) (n : ℕ) → unlinks f ≡ some n → f.size ≡ some n

module _ (unlinks : Media → Option ℕ) (frees : FreesSize unlinks) where
  total_of-cons :
      (f : Media) (fs : List Media)
      → total_of unlinks (f ∷ fs) ≡ total_of unlinks (f ∷ []) + total_of unlinks fs
  unfolding total_of
  total_of-cons f fs = elim (Option-cases f.size) [
    | inl unknown ↦ rw unknown (omega arith)
    | inr (n, known) ↦ rw known (omega arith)
  ]

  total_of-deleted :
      (f : Media) → 0 < delete_media unlinks f → total_of unlinks (f ∷ []) ≡ delete_media unlinks f
  unfolding total_of delete_media
  total_of-deleted f h = elim (Option-cases (unlinks f)) [
    | inl fails ↦ absurd (let q : 0 < 0 = rw (fails, delete_media) at h in omega arith)
    | inr (n, works) ↦ rw (works, frees f n works, delete_media) (omega arith)
  ]

  pub shrink_total :
      {S : Type 0} (reached : S → Bool) (freed : ℕ → S → S) (s : S) (c : Counts) (total n : ℕ)
      (fs : List Media)
      → total ≡ n + total_of unlinks fs
      → let r = (shrink unlinks reached freed s c total fs).1 in
        r.total ≡ n + total_of unlinks r.files
  unfolding shrink
  shrink_total reached freed s c total n [] e = e
  shrink_total {S} reached freed s c total n (f ∷ fs) e =
      let size = delete_media unlinks f in
      let rest = shrink unlinks reached freed s c total fs in
      shrink_cases unlinks reached freed s c total f fs
        (λ (r : S × Progress). r.1.total ≡ n + total_of unlinks r.1.files) (λ enough. e)
        (λ stays. omega (
          arith,
          total_of-cons f rest.1.files,
          shrink_total reached freed s c total (n + total_of unlinks (f ∷ [])) fs
              (omega (arith, e, total_of-cons f fs)),
        ))
        (λ works.
          shrink_total reached freed (freed size s) (count unlinks size c) (total - size) n fs
            (omega (arith, e, total_of-cons f fs, total_of-deleted f works)))
