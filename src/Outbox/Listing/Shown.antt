-- ===== src/Outbox/Listing/Shown.antt =====
-- A listing is sorted, within its window, and shows what is pending.
use camvault.Prelude.{
  ℕ, ◌≤◌, ◌≡◌, List, [], ◌∷◌, Bool, true, false, if◌then◌else◌, leb, arith, All, Bool-cases, inl,
  inr,
}
use camvault.Outbox.Listing.{Listed, keep_where, insert, sort_records}

abbrev pub Sorted : List Listed → Type 0
Sorted [] = Unit {0}
Sorted (r ∷ rs) = All (λ x. r.start ≤ x.start) rs × Sorted rs

All-insert :
    (P : Listed → Type 0) (r : Listed) (xs : List Listed) → P r → All P xs → All P (insert r xs)
unfolding insert
All-insert P r [] h hs = (h, tt)
All-insert P r (x ∷ xs) h hs = elim (Bool-cases (leb r.start x.start)) [
  | inl first ↦ rw first (h, hs)
  | inr later ↦ rw later (hs.0, All-insert P r xs h hs.1)
]

All-weaken :
    (a b : ℕ) (xs : List Listed) → a ≤ b → All (λ x. b ≤ x.start) xs → All (λ x. a ≤ x.start) xs
All-weaken a b [] le h = tt
All-weaken a b (x ∷ xs) le h = (omega (arith, h.0), All-weaken a b xs le h.1)

insert-Sorted : (r : Listed) (xs : List Listed) → Sorted xs → Sorted (insert r xs)
unfolding insert
insert-Sorted r [] h = (tt, tt)
insert-Sorted r (x ∷ xs) h = elim (Bool-cases (leb r.start x.start)) [
  | inl first ↦
      let le : r.start ≤ x.start = ground arith in
      rw first ((le, All-weaken r.start x.start xs le h.0), h)
  | inr later ↦
      rw later (All-insert (λ y. x.start ≤ y.start) r xs (ground arith) h.0, insert-Sorted r xs h.1)
]

pub sort_records-Sorted : (rs : List Listed) → Sorted (sort_records rs)
unfolding sort_records
sort_records-Sorted [] = tt
sort_records-Sorted (r ∷ rs) = insert-Sorted r (sort_records rs) (sort_records-Sorted rs)

pub All-sort_records : (P : Listed → Type 0) (rs : List Listed) → All P rs → All P (sort_records rs)
unfolding sort_records
All-sort_records P [] h = tt
All-sort_records P (r ∷ rs) h = All-insert P r (sort_records rs) h.0 (All-sort_records P rs h.1)

pub All-keep_where :
    (P : Listed → Type 0) (test : Listed → Bool) (rs : List Listed)
    → All P rs
    → All (λ r. P r × (test r ≡ true)) (keep_where test rs)
unfolding keep_where
All-keep_where P test [] h = tt
All-keep_where P test (r ∷ rs) h = elim (Bool-cases (test r)) [
  | inl yes_kept ↦ rw yes_kept ((h.0, yes_kept), All-keep_where P test rs h.1)
  | inr dropped ↦ rw dropped (All-keep_where P test rs h.1)
]

-- Some record of the list passes the test.
abbrev pub any : (Listed → Bool) → List Listed → Bool
any test [] = false
any test (r ∷ rs) = if test r then true else any test rs

any-insert :
    (test : Listed → Bool) (r : Listed) (xs : List Listed)
    → any test (r ∷ xs) ≡ true
    → any test (insert r xs) ≡ true
unfolding insert
any-insert test r [] h = h
any-insert test r (x ∷ xs) h = elim (Bool-cases (leb r.start x.start)) [
  | inl first ↦ rw first h
  | inr later ↦ rw later (elim (Bool-cases (test x)) [
    | inl here ↦ rw here
    | inr away ↦ rw away (any-insert test r xs (rw away at h))
  ])
]

pub any-sort_records :
    (test : Listed → Bool) (rs : List Listed)
    → any test rs ≡ true
    → any test (sort_records rs) ≡ true
unfolding sort_records
any-sort_records test [] h = h
any-sort_records test (r ∷ rs) h = any-insert test r (sort_records rs) (elim (Bool-cases (test r)) [
  | inl here ↦ rw here
  | inr away ↦ rw away (any-sort_records test rs (rw away at h))
])

pub any-keep_where :
    (test keep : Listed → Bool) (rs : List Listed)
    → ((r : Listed) → test r ≡ true → keep r ≡ true)
    → any test rs ≡ true
    → any test (keep_where keep rs) ≡ true
unfolding keep_where
any-keep_where test keep [] sub h = h
any-keep_where test keep (r ∷ rs) sub h = elim (Bool-cases (test r)) [
  | inl here ↦ rw (sub r here) (rw here)
  | inr away ↦ elim (Bool-cases (keep r)) [
    | inl kept ↦ rw (kept, away) (any-keep_where test keep rs sub (rw away at h))
    | inr dropped ↦ rw dropped (any-keep_where test keep rs sub (rw away at h))
  ]
]
