-- ===== src/Retention/Remote/Bounds.antt =====
-- How much an emergency reclaim deletes.
use camvault.Prelude.{
  ℕ, ◌+◌, ◌≤◌, ◌<◌, ◌≡◌, ◌⊎◌, inl, inr, refl, ap, ◌∙◌, subst, List, [], ◌∷◌, ◌++◌, Bool, false,
  Option, none, some, arith, length,
}
use camvault.Retention.Sweep.{Recording, Deletions, Swept}
use camvault.Retention.Sweep.Deleted.{Deleted}
use camvault.Retention.Sweep.Prefix.{total_size, Splits, steps, Wanted, sweep-Splits}
use camvault.Retention.Remote.{Reclaimed, reclaim, wants_reclaim, reclaim_step, below}

abbrev pub WithinLimit : Option ℕ → ℕ → Type 0
WithinLimit none files = Unit {0}
WithinLimit (some limit) files = files ≤ limit

abbrev pub AtLimit : Option ℕ → ℕ → Type 0
AtLimit none files = ⊥
AtLimit (some limit) files = limit ≤ files

-- Without the last deletion the bytes were not enough.
abbrev pub LastNeeded : ℕ → List Recording → Type 0
LastNeeded needed gone =
    (gone ≡ [])
    ⊎ ((before : List Recording) × (last : Recording) × (gone ≡ before ++ last ∷ [])
        × (total_size before < needed))

pub record Bounded (accepts : Recording → Bool) (needed : ℕ) (limit : Option ℕ) (d : Deletions)
    (rs : List Recording) (w : Swept Reclaimed) : Type 0 where
  pub gone : List Recording
  pub prefix : rs ≡ gone ++ w.kept
  pub deleted : Deleted accepts d gone w.deletions
  pub few : WithinLimit limit (length gone)
  pub last_needed : LastNeeded needed gone
  pub met : (needed ≤ total_size gone) ⊎ AtLimit limit (length gone) ⊎ (w.kept ≡ [])

module _ (accepts : Recording → Bool) (needed : ℕ) (limit : Option ℕ) where
  abbrev wanted : Reclaimed → Bool
  wanted = wants_reclaim accepts needed limit

  abbrev after : Reclaimed → List Recording → Reclaimed
  after = steps accepts wanted (reclaim_step accepts)

  bytes_after :
      (s : Reclaimed) (gone : List Recording) → (after s gone).bytes ≡ s.bytes + total_size gone
  bytes_after s [] = omega arith
  bytes_after s (r ∷ gone) = omega (arith, bytes_after (reclaim_step accepts s r) gone)

  files_after :
      (s : Reclaimed) (gone : List Recording) → (after s gone).files ≡ s.files + length gone
  files_after s [] = omega arith
  files_after s (r ∷ gone) = omega (arith, files_after (reclaim_step accepts s r) gone)

  last_needed :
      (s : Reclaimed) (r : Recording) (gone : List Recording)
      → Wanted accepts wanted (reclaim_step accepts) s (r ∷ gone)
      → (before : List Recording) × (last : Recording) × (r ∷ gone ≡ before ++ last ∷ [])
        × (s.bytes + total_size before < needed)
  last_needed s r [] v = ([], r, refl, ground (arith, v.0))
  last_needed s r (q ∷ gone) v =
      let (before, last, same, short) = last_needed (reclaim_step accepts s r) q gone v.1 in
      (r ∷ before, last, ap (λ t. r ∷ t) same, omega arith)

stop :
    (accepts : Recording → Bool) (needed : ℕ) (limit : Option ℕ) (s : Reclaimed)
    → wants_reclaim accepts needed limit s ≡ false
    → (needed ≤ s.bytes) ⊎ AtLimit limit s.files
unfolding below
stop accepts needed none s h = inl (ground arith)
stop accepts needed (some l) s h = ground arith

within_limit :
    (accepts : Recording → Bool) (needed : ℕ) (limit : Option ℕ) (s : Reclaimed)
    (gone : List Recording)
    → WithinLimit limit s.files
    → Wanted accepts (wants_reclaim accepts needed limit) (reclaim_step accepts) s gone
    → WithinLimit limit (s.files + length gone)
unfolding below
within_limit accepts needed none s gone h v = tt
within_limit accepts needed (some l) s [] h v = omega arith
within_limit accepts needed (some l) s (r ∷ gone) h v =
    let room : s.files < l = ground (arith, v.0) in
    omega (
      arith,
      within_limit accepts needed (some l) (reclaim_step accepts s r) gone (omega arith) v.1,
    )

within_none : (limit : Option ℕ) → WithinLimit limit 0
within_none none = tt
within_none (some l) = omega arith

last_of :
    (accepts : Recording → Bool) (needed : ℕ) (limit : Option ℕ) (gone : List Recording)
    → Wanted accepts
        (wants_reclaim accepts needed limit)
        (reclaim_step accepts)
        (record { bytes = 0; files = 0 })
        gone
    → LastNeeded needed gone
last_of accepts needed limit [] v = inl refl
last_of accepts needed limit (r ∷ gone) v =
    let (before, last, same, short) =
      last_needed accepts needed limit (record { bytes = 0; files = 0 }) r gone v in
    inr (before, last, same, omega arith)

-- A reclaim that ends without an exception deletes a prefix of its list, all of it in the log and
-- each new path counted once, no more recordings than its limit; without its last deletion the bytes
-- were not enough, and it stops only with enough bytes, at the limit, or with nothing left.
pub reclaim-Bounded :
    (accepts : Recording → Bool) (needed : ℕ) (limit : Option ℕ) (d : Deletions)
    (rs : List Recording) (w : Swept Reclaimed)
    → reclaim accepts needed limit d rs ≡ some w
    → Bounded accepts needed limit d rs w
unfolding reclaim
reclaim-Bounded accepts needed limit d rs w e =
    let zero_reclaimed : Reclaimed = record { bytes = 0; files = 0 } in
    let r : Splits accepts (wants_reclaim accepts needed limit) (reclaim_step accepts)
        zero_reclaimed d rs w =
      sweep-Splits accepts _ _ _ _ _ w e in
    let bytes : w.state.bytes ≡ total_size r.gone =
      ap (λ (s : Reclaimed). s.bytes) r.reached
      ∙ bytes_after accepts needed limit zero_reclaimed r.gone
      ∙ omega arith in
    let files : w.state.files ≡ length r.gone =
      ap (λ (s : Reclaimed). s.files) r.reached
      ∙ files_after accepts needed limit zero_reclaimed r.gone
      ∙ omega arith in
    record {
      gone = r.gone;
      prefix = r.prefix;
      deleted = r.deleted;
      few =
          subst (WithinLimit limit) {x = 0 + length r.gone} (omega arith)
            (within_limit accepts needed limit zero_reclaimed r.gone (within_none limit) r.wanted);
      last_needed = last_of accepts needed limit r.gone r.wanted;
      met = elim r.stopped [
        | inl empty ↦ inr (inr empty)
        | inr enough ↦ elim (stop accepts needed limit w.state enough) [
          | inl le ↦ inl (omega arith)
          | inr full ↦ inr (inl (subst (AtLimit limit) files full))
        ]
      ];
    }
