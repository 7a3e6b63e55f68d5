-- ===== src/Read/Range/Resolved.antt =====
-- Every resolved range lies inside the object, and every well-formed header is read as written.
use camvault.Prelude.{
  ℕ, ◌+◌, ◌-◌, ◌≤◌, ◌<◌, ◌≡◌, ◌⊎◌, inl, inr, refl, sym, ap, ◌∙◌, [], ◌∷◌, ◌++◌, true, false, Option,
  none, some, min, arith, ◌==◌, length, All, Bool-cases, Option-cases,
}
use camvault.Read.Range.{
  Text, Selected, is_digit, is_space, digits, to_number, unit_name, match_range, select, strip,
  rstrip, resolve_byte_range,
}

pub record InObject (size : ℕ) (r : Selected) : Type 0 where
  pub ordered : r.start ≤ r.last
  pub inside : r.last < size
  pub status : (r.status ≡ 200) × (r.start ≡ 0) × (r.last + 1 ≡ size) ⊎ (r.status ≡ 206)

select-InObject :
    (size : ℕ) (groups : Text × Text) (r : Selected)
    → 0 < size
    → select size groups ≡ some r
    → InObject size r
unfolding select
select-InObject size ([], []) r h e = cc
select-InObject size ([], d ∷ ds) r h e = ground arith
select-InObject size (c ∷ cs, ds) r h e = ground arith

module _ (text : Text) (size : ℕ) where
  resolve_matched :
      (groups : Text × Text)
      → (size == 0) ≡ false
      → match_range (strip text) ≡ some groups
      → resolve_byte_range (some text) size ≡ select size groups
  unfolding resolve_byte_range
  resolve_matched groups more good = rw (more, good, resolve_byte_range)

  resolve_empty :
      (r : Selected) → (size == 0) ≡ true → resolve_byte_range (some text) size ≡ some r → ⊥
  unfolding resolve_byte_range
  resolve_empty r gone e = ground arith

  resolve_malformed :
      (r : Selected)
      → (size == 0) ≡ false
      → match_range (strip text) ≡ none
      → resolve_byte_range (some text) size ≡ some r
      → ⊥
  unfolding resolve_byte_range
  resolve_malformed r more bad e = ground arith

-- A resolved range lies inside the object; status 200 is the whole of it.
pub resolve_byte_range-InObject :
    (value : Option Text) (size : ℕ) (r : Selected)
    → resolve_byte_range value size ≡ some r
    → InObject size r
unfolding resolve_byte_range
resolve_byte_range-InObject none size r e = ground arith
resolve_byte_range-InObject (some text) size r e = elim (Bool-cases (size == 0)) [
  | inl gone ↦ absurd (resolve_empty text size r gone e)
  | inr more ↦ elim (Option-cases (match_range (strip text))) [
    | inl bad ↦ absurd (resolve_malformed text size r more bad e)
    | inr (groups, good) ↦
        select-InObject size groups r (ground arith)
          (sym (resolve_matched text size groups more good) ∙ e)
  ]
]

abbrev pub IsDigit : ℕ → Type 0
IsDigit c = is_digit c ≡ true

digits-append :
    (ds : Text) (c : ℕ) (rest : Text)
    → All IsDigit ds
    → is_digit c ≡ false
    → digits (ds ++ c ∷ rest) ≡ (ds, c ∷ rest)
unfolding digits
digits-append [] c rest h k = rw k
digits-append (d ∷ ds) c rest h k = rw (digits-append ds c rest h.1 k, h.0)

digits-All : (ds : Text) → All IsDigit ds → digits ds ≡ (ds, [])
unfolding digits
digits-All [] h = refl
digits-All (d ∷ ds) h = rw (digits-All ds h.1, h.0)

-- `bytes=` and two runs of digits, not both empty.
abbrev pub range_text : Text → Text → Text
range_text first last = unit_name ++ (first ++ b'-' ∷ last)

match_range-range_text :
    (first last : Text)
    → All IsDigit first
    → All IsDigit last
    → match_range (range_text first last) ≡ some (first, last)
unfolding match_range is_digit
match_range-range_text first last h k = rw (digits-append first b'-' last h refl, digits-All last k)

abbrev NoSpace : ℕ → Type 0
NoSpace c = is_space c ≡ false

rstrip_lem : (cs : Text) → All NoSpace cs → rstrip cs ≡ cs
unfolding rstrip
rstrip_lem [] h = refl
rstrip_lem (c ∷ cs) h = rw (rstrip_lem cs h.1, h.0)

IsDigit-NoSpace : (c : ℕ) → IsDigit c → NoSpace c
unfolding is_digit is_space
IsDigit-NoSpace c h = ground arith

digits-NoSpace : (ds rest : Text) → All IsDigit ds → All NoSpace rest → All NoSpace (ds ++ rest)
digits-NoSpace [] rest h k = k
digits-NoSpace (d ∷ ds) rest h k = (IsDigit-NoSpace d h.0, digits-NoSpace ds rest h.1 k)

digits_only : (ds : Text) → All IsDigit ds → All NoSpace ds
digits_only [] h = tt
digits_only (d ∷ ds) h = (IsDigit-NoSpace d h.0, digits_only ds h.1)

strip-range_text :
    (first last : Text)
    → All IsDigit first
    → All IsDigit last
    → strip (range_text first last) ≡ range_text first last
unfolding strip is_space
strip-range_text first last h k = rstrip_lem (range_text first last) (
  refl,
  (
    refl,
    (refl, (refl, (refl, (refl, digits-NoSpace first (b'-' ∷ last) h (refl, digits_only last k))))),
  ),
)

module _ (c : ℕ) (cs last : Text) (size : ℕ) (h : All IsDigit (c ∷ cs)) (k : All IsDigit last) where
  resolve_text :
      0 < size
      → resolve_byte_range (some (range_text (c ∷ cs) last)) size ≡ select size (c ∷ cs, last)
  resolve_text pos =
      resolve_matched (range_text (c ∷ cs) last) size (c ∷ cs, last) (ground arith)
        (ap match_range (strip-range_text (c ∷ cs) last h k)
          ∙ match_range-range_text (c ∷ cs) last h k)

  -- `bytes=first-last` in digits, where `first` is inside the object and not after `last`, selects from
  -- `first` to `last`, cut at the end of the object.
  pub resolve_closed :
      0 < length last
      → to_number 0 (c ∷ cs) < size
      → to_number 0 (c ∷ cs) ≤ to_number 0 last
      → resolve_byte_range (some (range_text (c ∷ cs) last)) size
        ≡ some (record {
          status = 206;
          start = to_number 0 (c ∷ cs);
          last = min (to_number 0 last) (size - 1);
        })
  unfolding select
  resolve_closed given inside ordered = resolve_text (omega arith) ∙ ground arith

  -- A range in digits that begins past the end of an object that is not empty, or ends before it
  -- begins, is not satisfiable.
  pub resolve_unsatisfiable :
      0 < size
      → (size ≤ to_number 0 (c ∷ cs))
        ⊎ ((0 < length last) × (to_number 0 last < to_number 0 (c ∷ cs)))
      → resolve_byte_range (some (range_text (c ∷ cs) last)) size ≡ none
  unfolding select
  resolve_unsatisfiable pos (inl past) = resolve_text pos ∙ ground arith
  resolve_unsatisfiable pos (inr (given, before)) = resolve_text pos ∙ ground arith

-- `bytes=-count` in digits, not zero, selects the last `count` bytes of an object that is not empty, or
-- all of them where there are fewer.
pub resolve_suffix :
    (d : ℕ) (ds : Text) (size : ℕ)
    → All IsDigit (d ∷ ds)
    → 0 < size
    → 0 < to_number 0 (d ∷ ds)
    → resolve_byte_range (some (range_text [] (d ∷ ds))) size
      ≡ some (record { status = 206; start = size - to_number 0 (d ∷ ds); last = size - 1 })
unfolding select
resolve_suffix d ds size h pos count =
    resolve_matched (range_text [] (d ∷ ds)) size ([], d ∷ ds) (ground arith)
      (ap match_range (strip-range_text [] (d ∷ ds) tt h) ∙ match_range-range_text [] (d ∷ ds) tt h)
    ∙ ground arith
