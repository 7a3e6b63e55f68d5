-- ===== src/Prelude/Slices.antt =====
-- Python's `xs[a:b]` at indices that are not negative.
use Prim.Native.Nat.{ℕ, ◌+◌, ◌-◌, ◌≤◌}
use mathlib.Core.Path.{◌≡◌, ap, sym, ◌∙◌}
use mathlib.Core.List.{List, [], ◌++◌}
use native.Mathlib.Omega.{arith}
use camvault.Prelude.Lists.{
  length, take, drop, length-take, length-drop, drop-drop, take-drop, take-take_le, take-add,
  take_all,
}

module _ {ℓ} {A : Type ℓ} where
  abbrev pub slice : List A → ℕ → ℕ → List A
  slice xs a b = take (b - a) (drop a xs)

  pub length-slice : (xs : List A) (a b : ℕ) → b ≤ length xs → length (slice xs a b) ≡ b - a
  length-slice xs a b h = omega (arith, length-take (b - a) (drop a xs), length-drop a xs)

  -- Two slices that meet are one.
  pub slice-append :
      (xs : List A) (a b c : ℕ) → a ≤ b → b ≤ c → slice xs a b ++ slice xs b c ≡ slice xs a c
  slice-append xs a b c h k =
      ap (λ t. slice xs a b ++ take (c - b) t) (sym (drop-drop a (b - a) b xs (omega arith)))
      ∙ take-add (b - a) (c - b) (c - a) (drop a xs) (omega arith)

  -- A slice of a slice, where the inner end lies within the outer slice.
  pub slice-slice :
      (xs : List A) (a b u v m n : ℕ)
      → v ≤ b - a
      → u ≤ v
      → m ≡ a + u
      → n ≡ a + v
      → slice (slice xs a b) u v ≡ slice xs m n
  slice-slice xs a b u v m n h k e f =
      ap (take (v - u)) (take-drop u (b - a - u) (b - a) (drop a xs) (omega arith))
      ∙ take-take_le (v - u) (b - a - u) (drop u (drop a xs)) (omega arith)
      ∙ ap (take (v - u)) (drop-drop a u m xs e)
      ∙ ap (λ t. take t (drop m xs)) (omega arith)

  pub slice_empty : (xs : List A) (a b : ℕ) → b ≤ a → slice xs a b ≡ []
  slice_empty xs a b h = ap (λ t. take t (drop a xs)) {y = 0} (omega arith)

  pub slice_full : (xs : List A) (b : ℕ) → length xs ≤ b → slice xs 0 b ≡ xs
  slice_full xs b h = take_all (b - 0) xs (omega arith)
