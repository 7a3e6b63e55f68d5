-- ===== src/Prelude/Lists.antt =====
-- Lists measured and indexed by native numbers, under the library's names.
use Prim.Native.Nat.{ℕ, zero, suc, ◌+◌, ◌-◌, ◌≤◌, min}
use mathlib.Core.Path.{◌≡◌, refl, ap}
use mathlib.Core.List.{List, [], ◌∷◌, ◌++◌}
use native.Mathlib.Omega.{arith}

module _ {ℓ} {A : Type ℓ} where
  abbrev pub length : List A → ℕ
  length [] = 0
  length (x ∷ xs) = suc (length xs)

  abbrev pub take : ℕ → List A → List A
  take zero xs = []
  take (suc n) [] = []
  take (suc n) (x ∷ xs) = x ∷ take n xs

  abbrev pub drop : ℕ → List A → List A
  drop zero xs = xs
  drop (suc n) [] = []
  drop (suc n) (x ∷ xs) = drop n xs

  abbrev pub replicate : ℕ → A → List A
  replicate zero a = []
  replicate (suc n) a = a ∷ replicate n a

  -- Every element of the list has the property.
  abbrev pub All {κ} : (A → Type κ) → List A → Type κ
  All P [] = Unit
  All P (x ∷ xs) = P x × All P xs

module _ {ℓ} {A : Type ℓ} where
  pub length-append : (xs ys : List A) → length (xs ++ ys) ≡ length xs + length ys
  length-append [] ys = omega arith
  length-append (x ∷ xs) ys = omega (arith, length-append xs ys)

  pub length-take : (n : ℕ) (xs : List A) → length (take n xs) ≡ min n (length xs)
  length-take zero xs = omega arith
  length-take (suc n) [] = omega arith
  length-take (suc n) (x ∷ xs) = omega (arith, length-take n xs)

  pub length-drop : (n : ℕ) (xs : List A) → length (drop n xs) ≡ length xs - n
  length-drop zero xs = omega arith
  length-drop (suc n) [] = omega arith
  length-drop (suc n) (x ∷ xs) = omega (arith, length-drop n xs)

  pub take-append-drop : (n : ℕ) (xs : List A) → take n xs ++ drop n xs ≡ xs
  take-append-drop zero xs = refl
  take-append-drop (suc n) [] = refl
  take-append-drop (suc n) (x ∷ xs) = ap (λ t. x ∷ t) (take-append-drop n xs)

  pub take_all : (n : ℕ) (xs : List A) → length xs ≤ n → take n xs ≡ xs
  take_all zero [] h = refl
  take_all zero (x ∷ xs) h = absurd (omega arith)
  take_all (suc n) [] h = refl
  take_all (suc n) (x ∷ xs) h = ap (λ t. x ∷ t) (take_all n xs (omega arith))

  pub drop_all : (n : ℕ) (xs : List A) → length xs ≤ n → drop n xs ≡ []
  drop_all zero [] h = refl
  drop_all zero (x ∷ xs) h = absurd (omega arith)
  drop_all (suc n) [] h = refl
  drop_all (suc n) (x ∷ xs) h = drop_all n xs (omega arith)

  pub eq-nil_of_length : (xs : List A) → length xs ≡ 0 → xs ≡ []
  eq-nil_of_length [] h = refl
  eq-nil_of_length (x ∷ xs) h = absurd (omega arith)

  -- A cut inside the left part, and one past it.
  pub take-append_le : (n : ℕ) (xs ys : List A) → n ≤ length xs → take n (xs ++ ys) ≡ take n xs
  take-append_le zero xs ys h = refl
  take-append_le (suc n) [] ys h = absurd (omega arith)
  take-append_le (suc n) (x ∷ xs) ys h = ap (λ t. x ∷ t) (take-append_le n xs ys (omega arith))

  pub drop-append_le :
      (n : ℕ) (xs ys : List A) → n ≤ length xs → drop n (xs ++ ys) ≡ drop n xs ++ ys
  drop-append_le zero xs ys h = refl
  drop-append_le (suc n) [] ys h = absurd (omega arith)
  drop-append_le (suc n) (x ∷ xs) ys h = drop-append_le n xs ys (omega arith)

  pub take_left : (n : ℕ) (xs ys : List A) → length xs ≡ n → take n (xs ++ ys) ≡ xs
  take_left zero [] ys h = refl
  take_left zero (x ∷ xs) ys h = absurd (omega arith)
  take_left (suc n) [] ys h = absurd (omega arith)
  take_left (suc n) (x ∷ xs) ys h = ap (λ t. x ∷ t) (take_left n xs ys (omega arith))

  pub drop_left : (n : ℕ) (xs ys : List A) → length xs ≡ n → drop n (xs ++ ys) ≡ ys
  drop_left zero [] ys h = refl
  drop_left zero (x ∷ xs) ys h = absurd (omega arith)
  drop_left (suc n) [] ys h = absurd (omega arith)
  drop_left (suc n) (x ∷ xs) ys h = drop_left n xs ys (omega arith)

  pub drop-append_add :
      (n k m : ℕ) (xs ys : List A) → length xs ≡ n → m ≡ n + k → drop m (xs ++ ys) ≡ drop k ys
  drop-append_add zero k m [] ys h e = let q : m ≡ k = omega arith in ap (λ t. drop t ys) q
  drop-append_add zero k m (x ∷ xs) ys h e = absurd (omega arith)
  drop-append_add (suc n) k m [] ys h e = absurd (omega arith)
  drop-append_add (suc n) k zero (x ∷ xs) ys h e = absurd (omega arith)
  drop-append_add (suc n) k (suc m) (x ∷ xs) ys h e =
      drop-append_add n k m xs ys (omega arith) (omega arith)

  pub drop-drop : (n k m : ℕ) (xs : List A) → m ≡ n + k → drop k (drop n xs) ≡ drop m xs
  drop-drop zero k m xs e = let q : k ≡ m = omega arith in ap (λ t. drop t xs) q
  drop-drop (suc n) k zero xs e = absurd (omega arith)
  drop-drop (suc n) zero (suc m) [] e = refl
  drop-drop (suc n) (suc k) (suc m) [] e = refl
  drop-drop (suc n) k (suc m) (x ∷ xs) e = drop-drop n k m xs (omega arith)

  pub take-take_le : (n k : ℕ) (xs : List A) → n ≤ k → take n (take k xs) ≡ take n xs
  take-take_le zero k xs h = refl
  take-take_le (suc n) zero xs h = absurd (omega arith)
  take-take_le (suc n) (suc k) [] h = refl
  take-take_le (suc n) (suc k) (x ∷ xs) h = ap (λ t. x ∷ t) (take-take_le n k xs (omega arith))

  pub take-drop : (n k m : ℕ) (xs : List A) → m ≡ n + k → drop n (take m xs) ≡ take k (drop n xs)
  take-drop zero k m xs e = let q : m ≡ k = omega arith in ap (λ t. take t xs) q
  take-drop (suc n) k zero xs e = absurd (omega arith)
  take-drop (suc n) zero (suc m) [] e = refl
  take-drop (suc n) (suc k) (suc m) [] e = refl
  take-drop (suc n) k (suc m) (x ∷ xs) e = take-drop n k m xs (omega arith)

  -- The first `n + k` elements are the first `n` and the next `k`.
  pub take-add : (n k m : ℕ) (xs : List A) → m ≡ n + k → take n xs ++ take k (drop n xs) ≡ take m xs
  take-add zero k m xs e = let q : k ≡ m = omega arith in ap (λ t. take t xs) q
  take-add (suc n) k zero xs e = absurd (omega arith)
  take-add (suc n) zero (suc m) [] e = refl
  take-add (suc n) (suc k) (suc m) [] e = refl
  take-add (suc n) k (suc m) (x ∷ xs) e = ap (λ t. x ∷ t) (take-add n k m xs (omega arith))

  -- A prefix of a concatenation, by how much of the left part it takes.
  pub take-append :
      (n : ℕ) (xs ys : List A) → take n (xs ++ ys) ≡ take n xs ++ take (n - length (take n xs)) ys
  take-append zero xs ys = refl
  take-append (suc n) [] ys = let q : suc n - 0 ≡ suc n = omega arith in rw q
  take-append (suc n) (x ∷ xs) ys =
      let q : suc n - suc (length (take n xs)) ≡ n - length (take n xs) = omega arith in
      rw q (ap (λ t. x ∷ t) (take-append n xs ys))
