-- ===== src/Prelude/Texts.antt =====
-- Texts, as lists of code points, and their equality.
use Prim.Native.Nat.{ℕ}
use mathlib.Core.Path.{◌≡◌, refl, sym, ap₂, subst, ◌∙◌}
use mathlib.Core.Bool.{Bool, true, false, ◌&&◌}
use mathlib.Core.List.{List, [], ◌∷◌}
use native.Mathlib.Omega.{arith}
use mathlib.Core.Logic.{inl, inr}
use camvault.Prelude.Tests.{◌==◌, Bool-cases}

abbrev pub text_eq : List ℕ → List ℕ → Bool
text_eq [] [] = true
text_eq [] (d ∷ ds) = false
text_eq (c ∷ cs) [] = false
text_eq (c ∷ cs) (d ∷ ds) = (c == d) && text_eq cs ds

pub text_eq_refl : (cs : List ℕ) → text_eq cs cs ≡ true
text_eq_refl [] = refl
text_eq_refl (c ∷ cs) = ground (arith, text_eq_refl cs)

pub text_eq→eq : (cs ds : List ℕ) → text_eq cs ds ≡ true → cs ≡ ds
text_eq→eq [] [] h = refl
text_eq→eq [] (d ∷ ds) h = absurd (ground arith)
text_eq→eq (c ∷ cs) [] h = absurd (ground arith)
text_eq→eq (c ∷ cs) (d ∷ ds) h = ap₂ (◌∷◌) (ground arith) (text_eq→eq cs ds (ground arith))

pub text_eq_apart :
    (k i j : List ℕ) → text_eq k i ≡ false → text_eq k j ≡ true → text_eq i j ≡ false
text_eq_apart k i j h e = elim (Bool-cases (text_eq i j)) [
  | inl same ↦
      let q : k ≡ i = text_eq→eq k j e ∙ sym (text_eq→eq i j same) in
      let reflexive : text_eq k i ≡ true =
        subst (λ (x : List ℕ). text_eq k x ≡ true) q (text_eq_refl k) in
      absurd (ground arith)
  | inr apart ↦ apart
]
