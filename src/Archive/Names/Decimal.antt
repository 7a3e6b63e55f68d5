-- ===== src/Archive/Names/Decimal.antt =====
-- Zero-padded decimals are read back.
use camvault.Prelude.{
  ℕ, zero, suc, ◌+◌, ◌-◌, ◌*◌, ◌/◌, ◌%◌, ◌≤◌, ◌<◌, ◌≡◌, refl, ap, ◌∙◌, [], ◌∷◌, ◌++◌, Bool, length,
  length-append, arith, max,
}
use camvault.Read.Range.{Text, is_digit, to_number}
use camvault.Archive.Names.{pad, padded, digit_count}
use camvault.Archive.Names.Pattern.Matches.{Of}

abbrev pub pow10 : ℕ → ℕ
pow10 zero = 1
pow10 (suc w) = 10 * pow10 w

to_number-snoc :
    (acc : ℕ) (xs : Text) (d : ℕ)
    → to_number acc (xs ++ d ∷ []) ≡ to_number acc xs * 10 + (d - b'0')
unfolding to_number
to_number-snoc acc [] d = refl
to_number-snoc acc (x ∷ xs) d = to_number-snoc (acc * 10 + (x - b'0')) xs d

pub to_number-pad : (w n : ℕ) → n < pow10 w → to_number 0 (pad w n) ≡ n
unfolding pad
to_number-pad zero n h = unfold to_number in omega arith
to_number-pad (suc w) n h =
    to_number-snoc 0 (pad w (n / 10)) (b'0' + n % 10)
    ∙ omega (arith, to_number-pad w (n / 10) (omega arith))

pub length-pad : (w n : ℕ) → length (pad w n) ≡ w
unfolding pad
length-pad zero n = refl
length-pad (suc w) n =
    length-append (pad w (n / 10)) ((b'0' + n % 10) ∷ []) ∙ omega (arith, length-pad w (n / 10))

Of-append : (test : ℕ → Bool) (xs ys : Text) → Of test xs → Of test ys → Of test (xs ++ ys)
Of-append test [] ys h k = k
Of-append test (x ∷ xs) ys h k = (h.0, Of-append test xs ys h.1 k)

pub pad-Of : (w n : ℕ) → Of is_digit (pad w n)
unfolding pad
pad-Of zero n = tt
pad-Of (suc w) n =
    Of-append is_digit (pad w (n / 10)) _ (pad-Of w (n / 10)) (unfold is_digit in ground arith, tt)

digit_count-le : (fuel w n : ℕ) → 1 ≤ w → n < pow10 w → digit_count fuel n ≤ w
unfolding digit_count
digit_count-le zero w n h k = h
digit_count-le (suc fuel) zero n h k = absurd (omega arith)
digit_count-le (suc fuel) (suc zero) n h k = ground arith
digit_count-le (suc fuel) (suc (suc w)) n h k =
    ground (arith, digit_count-le fuel (suc w) (n / 10) (omega arith) (omega arith))

-- A number that fits its width is written with that many digits.
pub padded-eq : (w n : ℕ) → 1 ≤ w → n < pow10 w → padded w n ≡ pad w n
unfolding padded
padded-eq w n h k =
    ap (λ t. pad t n) {x = max w (digit_count n n)} {y = w}
      (omega (arith, digit_count-le n w n h k))

pow10_suc : (w : ℕ) → pow10 (w + 1) ≡ 10 * pow10 w
pow10_suc w = ap pow10 {x = w + 1} {y = suc w} (omega arith)

-- The digits of a number are enough for it.
digit_count_fits : (fuel n : ℕ) → n ≤ fuel → n < pow10 (digit_count fuel n)
unfolding digit_count
digit_count_fits zero n h = omega arith
digit_count_fits (suc fuel) n h =
    let more = digit_count fuel (n / 10) in
    ground (arith, digit_count_fits fuel (n / 10) (omega arith), pow10_suc more)

pow10_positive : (a : ℕ) → 1 ≤ pow10 a
pow10_positive zero = omega arith
pow10_positive (suc a) = omega (arith, pow10_positive a)

pow10-le : (a b : ℕ) → a ≤ b → pow10 a ≤ pow10 b
pow10-le zero b h = pow10_positive b
pow10-le (suc a) zero h = absurd (omega arith)
pow10-le (suc a) (suc b) h = omega (arith, pow10-le a b (omega arith))

pub to_number-padded : (w n : ℕ) → to_number 0 (padded w n) ≡ n
unfolding padded
to_number-padded w n =
    let fits = digit_count_fits n n (omega arith) in
    let more = pow10-le (digit_count n n) (max w (digit_count n n)) (omega arith) in
    to_number-pad (max w (digit_count n n)) n (omega (arith, fits, more))

pub padded-Of : (w n : ℕ) → Of is_digit (padded w n)
unfolding padded
padded-Of w n = pad-Of (max w (digit_count n n)) n

pub length-padded_ge : (w n : ℕ) → w ≤ length (padded w n)
unfolding padded
length-padded_ge w n = omega (arith, length-pad (max w (digit_count n n)) n)

pub length-padded : (w n : ℕ) → 1 ≤ w → n < pow10 w → length (padded w n) ≡ w
length-padded w n h k = ap length (padded-eq w n h k) ∙ length-pad w n

pub length-padded_le : (w v n : ℕ) → 1 ≤ w → w ≤ v → n < pow10 v → length (padded w n) ≤ v
unfolding padded
length-padded_le w v n h i k =
    omega (arith, length-pad (max w (digit_count n n)) n, digit_count-le n v n (omega arith) k)
