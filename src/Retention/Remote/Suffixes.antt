-- ===== src/Retention/Remote/Suffixes.antt =====
-- Suffixes of a sorted list of recordings, and what they keep.
use camvault.Prelude.{
  ℕ, ◌-◌, ◌≤◌, ◌≡◌, ◌⊎◌, inl, inr, refl, sym, ap, ◌∙◌, subst, List, [], ◌∷◌, ◌++◌, append_assoc,
  Bool, true, false, Option, none, some, if◌then◌else◌, arith,
}
use camvault.Retention.Sweep.{Recording}
use camvault.Retention.Sweep.Deleted.{Deleted, Deleted-append, Deleted-none}
use camvault.Retention.Sweep.Prefix.{total_size, total_size-append, steps}
use camvault.Retention.Remote.{Passed, more_free}

-- Each recording starts at the earliest with the one before.
abbrev pub Sorted : ℕ → List Recording → Type 0
Sorted low [] = Unit {0}
Sorted low (r ∷ rs) = (low ≤ r.start) × Sorted r.start rs

abbrev pub Young : ℕ → List Recording → Type 0
Young cutoff [] = Unit {0}
Young cutoff (r ∷ rs) = (cutoff ≤ r.start) × Young cutoff rs

abbrev pub Suffix : List Recording → List Recording → Type 0
Suffix xs ys = (gone : List Recording) × (xs ≡ gone ++ ys)

pub some-injective {ℓ} : {A : Type ℓ} {a b : A} → some a ≡ some b → a ≡ b
some-injective e = cc

Young-drop :
    (cutoff : ℕ) (gone kept : List Recording) → Young cutoff (gone ++ kept) → Young cutoff kept
Young-drop cutoff [] kept y = y
Young-drop cutoff (r ∷ gone) kept y = Young-drop cutoff gone kept y.1

pub Sorted-Young :
    (cutoff low : ℕ) (rs : List Recording) → cutoff ≤ low → Sorted low rs → Young cutoff rs
Sorted-Young cutoff low [] h s = tt
Sorted-Young cutoff low (r ∷ rs) h s =
    (omega (arith, s.0), Sorted-Young cutoff r.start rs (omega (arith, s.0)) s.1)

module _ (accepts : Recording → Bool) where
  -- What the second keeps is what the first keeps without a prefix, which was deleted between them.
  abbrev pub Purged : Passed → Passed → Type 0
  Purged x y =
      (gone : List Recording) × (x.kept ≡ gone ++ y.kept)
      × Deleted accepts x.deletions gone y.deletions

  pub Purged-same : (x y : Passed) → x ≡ y → Purged x y
  Purged-same x y e = subst (Purged x) e ([], refl, Deleted-none accepts x.deletions)

  pub Purged-trans : (x y z : Passed) → Purged x y → Purged y z → Purged x z
  Purged-trans x y z (g, e, p) (g', e', p') = (
    g ++ g',
    e ∙ ap (λ t. g ++ t) e' ∙ sym (append_assoc g g' z.kept),
    Deleted-append accepts x.deletions y.deletions z.deletions g g' p p',
  )

  pub Purged-Suffix : (x y : Passed) → Purged x y → Suffix x.kept y.kept
  Purged-Suffix x y (g, e, p) = (g, e)

pub total_size-Suffix : (xs ys : List Recording) → Suffix xs ys → total_size ys ≤ total_size xs
total_size-Suffix xs ys (g, e) = omega (arith, ap total_size e, total_size-append g ys)

pub Young-Suffix :
    (cutoff : ℕ) (xs ys : List Recording) → Suffix xs ys → Young cutoff xs → Young cutoff ys
Young-Suffix cutoff xs ys (g, e) y = Young-drop cutoff g ys (subst (Young cutoff) e y)

-- Enough free space, or nothing left to delete; none is asked for, or the server does not tell.
abbrev pub Free : ℕ → Option ℕ → List Recording → Type 0
Free min_free none kept = Unit {0}
Free min_free (some f) kept = (min_free ≡ 0) ⊎ (min_free ≤ f) ⊎ (kept ≡ [])

pub taken {ℓ} :
    {A : Type ℓ} {b : Bool} {x z : A} (y : A) → b ≡ true → (if b then x else y) ≡ z → x ≡ z
taken {x} y h e = sym (ap (λ b. if b then x else y) h) ∙ e

pub passed_over {ℓ} :
    {A : Type ℓ} {b : Bool} (x : A) {y z : A} → b ≡ false → (if b then x else y) ≡ z → y ≡ z
passed_over x {y} h e = sym (ap (λ b. if b then x else y) h) ∙ e

pub Free-more :
    (min_free bytes : ℕ) (free : Option ℕ) (xs ys : List Recording)
    → Suffix xs ys
    → Free min_free free xs
    → Free min_free (more_free (λ r. true) bytes free) ys
Free-more min_free bytes none xs ys s room = tt
Free-more min_free bytes (some f) xs ys s (inl z) = inl z
Free-more min_free bytes (some f) xs ys s (inr (inl le)) = inr (inl (omega arith))
Free-more min_free bytes (some f) xs ys ([], e) (inr (inr gone)) = inr (inr (sym e ∙ gone))
Free-more min_free bytes (some f) xs ys (g ∷ gs, e) (inr (inr gone)) = cc

module _ (accepts : Recording → Bool) (wants : ℕ → Bool) where
  pub steps_total :
      (gone : List Recording) (total : ℕ)
      → steps accepts wants (λ t r. t - r.size_bytes) total gone ≡ total - total_size gone
  steps_total [] total = omega arith
  steps_total (r ∷ gone) total = omega (arith, steps_total gone (total - r.size_bytes))
