-- ===== src/Retention/Remote/Passes.antt =====
-- Each pass of a retention run deletes a prefix of what the one before kept, and keeps its own limit.
use camvault.Prelude.{
  ℕ, ◌+◌, ◌-◌, ◌≤◌, ◌≡◌, ◌⊎◌, inl, inr, refl, sym, ap, ◌∙◌, subst, List, [], ◌∷◌, Bool, false, not,
  ◌&&◌, Option, none, some, arith, ltb, ◌==◌, Bool-cases, Option-cases,
}
use camvault.Retention.Sweep.{Recording, Deletions, delete_record}
use camvault.Retention.Sweep.Deleted.{Deleted-more}
use camvault.Retention.Sweep.Prefix.{
  total_size, total_size-append, >>=-eq-some, Splits, sweep-Splits,
}
use camvault.Retention.Remote.{
  Policy, Passed, age_loop, age_pass, size_pass, free_sweep, free_pass, wants_reclaim, reclaim_step,
  reclaim, emergency_pass,
}
use camvault.Retention.Remote.Suffixes.{
  Sorted, Young, Purged, Purged-same, some-injective, Sorted-Young, Free, taken, passed_over,
  Free-more, steps_total,
}

module _ (accepts : Recording → Bool) where
  -- On a sorted list the pass by age, too, deletes a prefix.
  age_loop-Young :
      (cutoff : ℕ) (d : Deletions) (free : Option ℕ) (rs : List Recording)
      → Young cutoff rs
      → age_loop accepts cutoff d free rs ≡ some (record { deletions = d; kept = rs; free = free })
  unfolding age_loop
  age_loop-Young cutoff d free [] y = refl
  age_loop-Young cutoff d free (r ∷ rs) y =
      let late : ltb r.start cutoff ≡ false = ground (arith, y.0) in
      rw (late, age_loop-Young cutoff d free rs y.1)

  age_loop_lem :
      (cutoff low : ℕ) (d : Deletions) (free : Option ℕ) (rs : List Recording) (y : Passed)
      → Sorted low rs
      → age_loop accepts cutoff d free rs ≡ some y
      → Purged accepts (record { deletions = d; kept = rs; free = free }) y × Young cutoff y.kept
  unfolding age_loop
  age_loop_lem cutoff low d free [] y s e =
      let q = some-injective e in
      (Purged-same accepts _ y q, subst (λ (t : Passed). Young cutoff t.kept) q tt)
  age_loop_lem cutoff low d free (r ∷ rs) y s e = elim (Bool-cases (ltb r.start cutoff)) [
    | inl old ↦
        (let (d', deleted, rest) =
            >>=-eq-some (delete_record accepts d r) (λ d'. age_loop accepts cutoff d' free rs)
              (taken _ old e) in
          let ((gone, same, purged), young) = age_loop_lem cutoff r.start d' free rs y s.1 rest in
          (
            (
              r ∷ gone,
              ap (λ t. r ∷ t) same,
              Deleted-more accepts d d' r gone y.deletions deleted purged,
            ),
            young,
          ))
    | inr late ↦
        (let late_le : cutoff ≤ r.start = ground arith in
          let all_young : Young cutoff (r ∷ rs) =
            (late_le, Sorted-Young cutoff r.start rs late_le s.1) in
          let q = some-injective (sym (age_loop-Young cutoff d free (r ∷ rs) all_young) ∙ e) in
          (Purged-same accepts _ y q, subst (λ (t : Passed). Young cutoff t.kept) q all_young))
  ]

  pub age_pass_lem :
      (p : Policy) (low : ℕ) (x y : Passed)
      → Sorted low x.kept
      → age_pass accepts p x ≡ some y
      → Purged accepts x y × ((p.retention_days ≡ 0) ⊎ Young p.cutoff y.kept)
  unfolding age_pass
  age_pass_lem p low x y s e = elim (Bool-cases (p.retention_days == 0)) [
    | inl zero_days ↦
        (Purged-same accepts x y (some-injective (taken _ zero_days e)), inl (ground arith))
    | inr days ↦
        (let (suffix, young) =
            age_loop_lem p.cutoff low x.deletions x.free x.kept y s (passed_over _ days e) in
          (suffix, inr young))
  ]

  pub size_pass_lem :
      (p : Policy) (x y : Passed)
      → size_pass accepts p x ≡ some y
      → Purged accepts x y × ((p.max_bytes ≡ 0) ⊎ (total_size y.kept ≤ p.max_bytes))
  unfolding size_pass
  size_pass_lem p x y e =
      elim (Bool-cases (not (p.max_bytes == 0) && ltb p.max_bytes (total_size x.kept))) [
        | inr fits ↦
            (let q : x ≡ y = some-injective (passed_over _ fits e) in
              (
                Purged-same accepts x y q,
                subst (λ (t : Passed). (p.max_bytes ≡ 0) ⊎ (total_size t.kept ≤ p.max_bytes)) q
                    (ground arith),
              ))
        | inl over ↦
            (let (w, ran, built) = >>=-eq-some _ _ (taken _ over e) in
              let r : Splits accepts (λ total. ltb p.max_bytes total)
                  (λ total r. total - r.size_bytes) (total_size x.kept) x.deletions x.kept w =
                sweep-Splits accepts _ _ _ _ _ w ran in
              let q = some-injective built in
              let left : w.state ≡ total_size w.kept =
                r.reached
                ∙ steps_total accepts (λ total. ltb p.max_bytes total) r.gone (total_size x.kept)
                ∙ omega (arith, ap total_size r.prefix, total_size-append r.gone w.kept) in
              let small : total_size w.kept ≤ p.max_bytes = elim r.stopped [
                | inl none_left ↦ omega (arith, ap total_size none_left)
                | inr enough ↦ ground (arith, left)
              ] in
              (
                subst (Purged accepts x) q (r.gone, r.prefix, r.deleted),
                inr (subst (λ (t : Passed). total_size t.kept ≤ p.max_bytes) q small),
              ))
      ]

  free_sweep_lem :
      (min_free f : ℕ) (x y : Passed)
      → x.free ≡ some f
      → free_sweep accepts min_free f x ≡ some y
      → Purged accepts x y × Free min_free y.free y.kept
  unfolding free_sweep
  free_sweep_lem min_free f x y known e =
      elim (Bool-cases (not (min_free == 0) && ltb f min_free)) [
        | inr fits ↦
            (let q : x ≡ y = some-injective (passed_over _ fits e) in
              let room : (min_free ≡ 0) ⊎ (min_free ≤ f) = ground arith in
              (
                Purged-same accepts x y q,
                subst (λ (t : Passed). Free min_free t.free t.kept) q
                    (subst (λ g. Free min_free g x.kept) (sym known)
                      (elim room [ inl z ↦ inl z | inr le ↦ inr (inl le) ])),
              ))
        | inl short ↦
            (let (w, ran, built) = >>=-eq-some _ _ (taken _ short e) in
              let r : Splits accepts (λ g. ltb g min_free) (λ g r. g + r.size_bytes) f x.deletions
                  x.kept w =
                sweep-Splits accepts _ _ _ _ _ w ran in
              let q = some-injective built in
              (
                subst (Purged accepts x) q (r.gone, r.prefix, r.deleted),
                subst (λ (t : Passed). Free min_free t.free t.kept) q
                    (inr (elim r.stopped [
                      | inl none_left ↦ inr none_left
                      | inr enough ↦ inl (ground arith)
                    ])),
              ))
      ]

  free_pass_unknown : (p : Policy) (x : Passed) → x.free ≡ none → free_pass accepts p x ≡ some x
  unfolding free_pass
  free_pass_unknown p x unknown =
      ap
        (λ g. elim g as (λ _. Option Passed) [
          | none ↦ some x
          | some f ↦ free_sweep accepts p.min_free_bytes f x
        ])
        unknown

  free_pass_known :
      (p : Policy) (x : Passed) (f : ℕ)
      → x.free ≡ some f
      → free_pass accepts p x ≡ free_sweep accepts p.min_free_bytes f x
  unfolding free_pass
  free_pass_known p x f known =
      ap
        (λ g. elim g as (λ _. Option Passed) [
          | none ↦ some x
          | some n ↦ free_sweep accepts p.min_free_bytes n x
        ])
        known

  pub free_pass_lem :
      (p : Policy) (x y : Passed)
      → free_pass accepts p x ≡ some y
      → Purged accepts x y × Free p.min_free_bytes y.free y.kept
  free_pass_lem p x y e = elim (Option-cases x.free) [
    | inl unknown ↦
        (let q : x ≡ y = some-injective (sym (free_pass_unknown p x unknown) ∙ e) in
          (
            Purged-same accepts x y q,
            subst (λ (t : Passed). Free p.min_free_bytes t.free t.kept) q
                (subst (λ g. Free p.min_free_bytes g x.kept) (sym unknown) tt),
          ))
    | inr (f, known) ↦
        free_sweep_lem p.min_free_bytes f x y known (sym (free_pass_known p x f known) ∙ e)
  ]

  pub emergency_pass_lem :
      (min_free min_delete : ℕ) (limit : Option ℕ) (x y : Passed)
      → Free min_free x.free x.kept
      → emergency_pass accepts min_delete limit x ≡ some y
      → Purged accepts x y × Free min_free y.free y.kept
  unfolding emergency_pass reclaim
  emergency_pass_lem min_free min_delete limit x y room e =
      elim (Bool-cases (min_delete - x.deletions.bytes == 0)) [
        | inl enough ↦
            (let q : x ≡ y = some-injective (taken _ enough e) in
              (
                Purged-same accepts x y q,
                subst (λ (t : Passed). Free min_free t.free t.kept) q room,
              ))
        | inr needed ↦
            (let (w, ran, built) = >>=-eq-some _ _ (passed_over _ needed e) in
              let r : Splits accepts (wants_reclaim accepts (min_delete - x.deletions.bytes) limit)
                  (reclaim_step accepts) (record { bytes = 0; files = 0 }) x.deletions x.kept w =
                sweep-Splits accepts _ _ _ _ _ w ran in
              let q = some-injective built in
              (
                subst (Purged accepts x) q (r.gone, r.prefix, r.deleted),
                subst (λ (t : Passed). Free min_free t.free t.kept) q
                    (Free-more min_free w.state.bytes x.free x.kept w.kept (r.gone, r.prefix) room),
              ))
      ]
