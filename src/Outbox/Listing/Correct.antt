-- ===== src/Outbox/Listing/Correct.antt =====
-- What `list_records` gives.
use camvault.Prelude.{
  ℕ, ◌≡◌, refl, subst, List, [], ◌∷◌, true, false, Option, none, some, arith, All, text_eq,
  Bool-cases, ◌⊎◌, Option-cases, inl, inr,
}
use camvault.Read.Range.{Text}
use camvault.Outbox.Entry.{Entry}
use camvault.Outbox.Listing.{
  Listed, end_of, record_of, ends_after, starts_before, keep_where, last_records, filter_records,
  update_records, local_records, Answer, remote_records, with_remote, list_records,
}
use camvault.Outbox.Listing.Shown.{
  Sorted, any, sort_records-Sorted, All-sort_records, All-keep_where, any-sort_records,
  any-keep_where,
}
use camvault.Outbox.Listing.Merged.{
  same_place, Timed, Recorded, local_records-Timed, local_records-Recorded, any-update_records_new,
}

-- The record is in the window that was asked for.
abbrev pub InWindow : Option ℕ → Option ℕ → Listed → Type 0
InWindow start end r = (ends_after start r ≡ true) × (starts_before end r ≡ true)

trivially : (rs : List Listed) → All (λ r. Unit {0}) rs
trivially [] = tt
trivially (r ∷ rs) = (tt, trivially rs)

All-weaken_pair :
    (start end : Option ℕ) (rs : List Listed)
    → All (λ r. (Unit {0} × (ends_after start r ≡ true)) × (starts_before end r ≡ true)) rs
    → All (InWindow start end) rs
All-weaken_pair start end [] h = tt
All-weaken_pair start end (r ∷ rs) h = ((h.0.0.1, h.0.1), All-weaken_pair start end rs h.1)

filter_records-InWindow :
    (start end : Option ℕ) (rs : List Listed)
    → All (InWindow start end) (filter_records start end none rs)
unfolding filter_records last_records
filter_records-InWindow start end rs =
    let kept = keep_where (ends_after start) rs in
    All-sort_records (InWindow start end) (keep_where (starts_before end) kept) (
      All-weaken_pair start end _ (
        All-keep_where _ (starts_before end) kept
          (All-keep_where _ (ends_after start) rs (trivially rs))))

ends_same :
    (start : Option ℕ) (r x : Listed)
    → end_of x ≡ end_of r
    → ends_after start r ≡ true
    → ends_after start x ≡ true
ends_same none r x same h = refl
ends_same (some t) r x same h = ground (arith, same)

starts_same :
    (end : Option ℕ) (r x : Listed)
    → x.start ≡ r.start
    → starts_before end r ≡ true
    → starts_before end x ≡ true
starts_same none r x same h = refl
starts_same (some t) r x same h = ground (arith, same)

same_place_window :
    (start end : Option ℕ) (r x : Listed)
    → InWindow start end r
    → same_place r x ≡ true
    → InWindow start end x
same_place_window start end r x h same =
    let a : x.start ≡ r.start = ground arith in
    let b : x.duration ≡ r.duration = ground arith in
    (ends_same start r x (omega (arith, a, b)) h.0, starts_same end r x a h.1)

filter_records-any :
    (start end : Option ℕ) (r : Listed) (rs : List Listed)
    → InWindow start end r
    → any (same_place r) rs ≡ true
    → any (same_place r) (filter_records start end none rs) ≡ true
unfolding filter_records last_records
filter_records-any start end r rs inside h = any-sort_records (same_place r) _ (
    any-keep_where (same_place r) (starts_before end) _
      (λ x same. (same_place_window start end r x inside same).1)
      (any-keep_where (same_place r) (ends_after start) rs
        (λ x same. (same_place_window start end r x inside same).0) h))

listed_from :
    (camera : Text) (es : List (Text × Entry)) (answer : Answer) (start end limit : Option ℕ)
    (shown : List Listed)
    → list_records camera es answer start end limit ≡ some shown
    → (local : List Listed) × (remote : List Listed) × (local_records camera es ≡ some local)
      × (filter_records start end limit (update_records (update_records [] remote) local) ≡ shown)
unfolding list_records with_remote
listed_from camera es answer start end limit shown h =
    elim (Option-cases (local_records camera es)) [
      | inl nothing ↦
          absurd (let q : none ≡ some shown = rw (nothing, list_records) at h in ground arith)
      | inr (local, ours) ↦
          let k = rw (ours, list_records) at h in
          elim (Option-cases (remote_records local answer)) [
            | inl failing ↦
                absurd (let q : none ≡ some shown = rw (failing, with_remote) at k in ground arith)
            | inr (remote, theirs) ↦
                let q : some (
                      filter_records start end limit
                        (update_records (update_records [] remote) local))
                    ≡ some shown =
                  rw (theirs, with_remote) at k in
                (local, remote, ours, ground arith)
          ]
    ]

-- An entry of another camera, or one whose record is outside of the window or shown: the listing has
-- a record of its path, start and duration.
abbrev pub Listable : Text → Option ℕ → Option ℕ → List Listed → Text × Entry → Type 0
Listable camera start end shown x =
    (text_eq x.1.manifest.camera_id camera ≡ false)
    ⊎ ((r : Listed) × (record_of x.1 ≡ some r)
        × ((ends_after start r ≡ false)
            ⊎ (starts_before end r ≡ false)
            ⊎ (any (same_place r) shown ≡ true)))

All-Listable :
    (camera : Text) (start end : Option ℕ) (local rs : List Listed) (es : List (Text × Entry))
    → All Timed local
    → All (Recorded camera local) es
    → All (Listable camera start end (filter_records start end none (update_records rs local))) es
All-Listable camera start end local rs [] timed h = tt
All-Listable camera start end local rs (x ∷ es) timed (inl other, h) =
    (inl other, All-Listable camera start end local rs es timed h)
All-Listable camera start end local rs (x ∷ es) timed (inr (r, is, there), h) = (
  inr (
    r,
    is,
    elim (Bool-cases (ends_after start r)) [
      | inr before ↦ inl before
      | inl late ↦ elim (Bool-cases (starts_before end r)) [
        | inr after ↦ inr (inl after)
        | inl early ↦ inr (
            inr (
              filter_records-any start end r (update_records rs local) (late, early)
                (any-update_records_new r rs local timed there)))
      ]
    ],
  ),
  All-Listable camera start end local rs es timed h,
)

-- Whatever the remote gives and whatever is pending, a listing without a limit that ends well is sorted
-- by start and within its window; and each pending entry is of another camera, or its record is outside
-- of the window, or the listing shows a record of the same path, start and duration.
pub list_records-Sorted :
    (camera : Text) (es : List (Text × Entry)) (answer : Answer) (start end : Option ℕ)
    (shown : List Listed)
    → list_records camera es answer start end none ≡ some shown
    → Sorted shown × All (InWindow start end) shown × All (Listable camera start end shown) es
unfolding filter_records last_records
list_records-Sorted camera es answer start end shown h =
    let (local, remote, locals, same) = listed_from camera es answer start end none shown h in
    let merged = update_records (update_records [] remote) local in
    subst
      (λ (rs : List Listed).
        Sorted rs × All (InWindow start end) rs × All (Listable camera start end rs) es)
      same
      (
        sort_records-Sorted (keep_where (starts_before end) (keep_where (ends_after start) merged)),
        filter_records-InWindow start end merged,
        All-Listable camera start end local (update_records [] remote) es
            (local_records-Timed camera es local locals)
            (local_records-Recorded camera es local locals),
      )
