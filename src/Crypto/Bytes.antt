-- ===== src/Crypto/Bytes.antt =====
-- Fixed-width big-endian numbers, as `struct` and `int.to_bytes` of Python's standard library write
-- them: the codes `I` and `Q` of the header, and the 96-bit nonces.
use native.Mathlib.Nat.{pow-suc, mul-le-mul_right}
use camvault.Prelude.{
  ℕ, zero, suc, ◌+◌, ◌*◌, ◌/◌, ◌%◌, ◌^◌, ◌<◌, ◌≤◌, ◌≡◌, refl, sym, ap, ap₂, subst, ◌∙◌, List, [],
  ◌∷◌, ◌++◌, arith, length, length-append, All,
}

abbrev pub Bytes : Type 0
Bytes = List ℕ

abbrev pub IsByte : ℕ → Type 0
IsByte b = b < 256

unfoldable pub to_be : ℕ → ℕ → Bytes
to_be zero n = []
to_be (suc w) n = to_be w (n / 256) ++ n % 256 ∷ []

-- The value of `acc` followed by the bytes.
unfoldable pub be_from : ℕ → Bytes → ℕ
be_from acc [] = acc
be_from acc (b ∷ bs) = be_from (acc * 256 + b) bs

unfoldable pub from_be : Bytes → ℕ
unfolding be_from
from_be bs = be_from 0 bs

pub length-to_be : (w n : ℕ) → length (to_be w n) ≡ w
unfolding to_be
length-to_be zero n = refl
length-to_be (suc w) n =
    omega (arith, length-append (to_be w (n / 256)) (n % 256 ∷ []), length-to_be w (n / 256))

be_from-append :
    (acc : ℕ) (xs : Bytes) (b : ℕ) → be_from acc (xs ++ b ∷ []) ≡ be_from acc xs * 256 + b
unfolding be_from
be_from-append acc [] b = refl
be_from-append acc (x ∷ xs) b = be_from-append (acc * 256 + x) xs b

-- A number that fits the width is read back.
pub from_be-to_be : (w n : ℕ) → n < 256 ^ w → from_be (to_be w n) ≡ n
unfolding from_be to_be
from_be-to_be zero n h = omega arith
from_be-to_be (suc w) n h =
    be_from-append 0 (to_be w (n / 256)) (n % 256)
    ∙ ap (λ t. t * 256 + n % 256) (from_be-to_be w (n / 256) (omega (arith, pow-suc 256 w)))
    ∙ omega arith

pub All-to_be : (w n : ℕ) → All IsByte (to_be w n)
unfolding to_be
All-to_be zero n = tt
All-to_be (suc w) n = All-snoc (to_be w (n / 256)) (n % 256) (All-to_be w (n / 256)) (omega arith)
  where
    All-snoc : (xs : Bytes) (b : ℕ) → All IsByte xs → IsByte b → All IsByte (xs ++ b ∷ [])
    All-snoc [] b h k = (k, tt)
    All-snoc (x ∷ xs) b h k = (h.0, All-snoc xs b h.1 k)

mul_bound : (a x p : ℕ) → x < 256 → (a * 256 + x + 1) * p ≤ (a + 1) * (p * 256)
mul_bound a x p h =
    let k : a * 256 + x + 1 ≤ (a + 1) * 256 = omega arith in
    let m : (a * 256 + x + 1) * p ≤ (a + 1) * 256 * p = mul-le-mul_right p k in omega arith

be_from_bound :
    (acc : ℕ) (xs : Bytes) → All IsByte xs → be_from acc xs < (acc + 1) * 256 ^ length xs
unfolding be_from
be_from_bound acc [] h = omega arith
be_from_bound acc (x ∷ xs) h =
    let p : 256 ^ length (x ∷ xs) ≡ 256 ^ length xs * 256 = pow-suc 256 (length xs) in
    rw p
      (omega (arith, be_from_bound (acc * 256 + x) xs h.1, mul_bound acc x (256 ^ length xs) h.0))

pub from_be-lt : (xs : Bytes) → All IsByte xs → from_be xs < 256 ^ length xs
unfolding from_be
from_be-lt xs h = omega (arith, be_from_bound 0 xs h)

be_from_injective :
    (acc acc' : ℕ) (xs ys : Bytes)
    → All IsByte xs
    → All IsByte ys
    → length xs ≡ length ys
    → be_from acc xs ≡ be_from acc' ys
    → (acc ≡ acc') × (xs ≡ ys)
unfolding be_from
be_from_injective acc acc' [] [] h k l e = (e, refl)
be_from_injective acc acc' [] (y ∷ ys) h k l e = absurd (omega arith)
be_from_injective acc acc' (x ∷ xs) [] h k l e = absurd (omega arith)
be_from_injective acc acc' (x ∷ xs) (y ∷ ys) h k l e =
    let ih : (acc * 256 + x ≡ acc' * 256 + y) × (xs ≡ ys) =
      be_from_injective (acc * 256 + x) (acc' * 256 + y) xs ys h.1 k.1 (omega arith) e in
    let q : x ≡ y = omega (arith, ih.0, h.0, k.0) in
    (omega (arith, ih.0, h.0, k.0), ap₂ (λ a b. a ∷ b) q ih.1)

-- Byte strings of one length with one value are equal.
pub from_be_injective :
    (xs ys : Bytes)
    → All IsByte xs
    → All IsByte ys
    → length xs ≡ length ys
    → from_be xs ≡ from_be ys
    → xs ≡ ys
unfolding from_be
from_be_injective xs ys h k l e = (be_from_injective 0 0 xs ys h k l e).1

-- A byte string of the given width is written back.
pub to_be-from_be : (w : ℕ) (xs : Bytes) → All IsByte xs → length xs ≡ w → to_be w (from_be xs) ≡ xs
to_be-from_be w xs h e =
    from_be_injective (to_be w (from_be xs)) xs (All-to_be w (from_be xs)) h
      (length-to_be w (from_be xs) ∙ sym e)
      (from_be-to_be w (from_be xs) (subst (λ t. from_be xs < 256 ^ t) e (from_be-lt xs h)))
