-- ===== src/Logs/Recent/Poll.antt =====
-- A reader that polls with the last sequence number it knows misses nothing and sees nothing twice.
use camvault.Prelude.{
  ℕ, zero, suc, ◌+◌, ◌-◌, ◌≤◌, ◌≡◌, refl, sym, ap, ◌∙◌, List, [], ◌∷◌, ◌++◌, append_assoc,
  append-nil, length, length-append, length-drop, drop, drop-append_le, ◌==◌, arith, Bool-cases,
  inl, inr,
}
use camvault.Logs.Recent.{
  Rendered, LogEntry, Formatted, rendered, no_message, no_timestamp, RecentLog, entry_of, push,
  emit, newer, last_entries, snapshot,
}

abbrev pub Old : ℕ → List LogEntry → Type 0
Old n [] = Unit {0}
Old n (e ∷ es) = (e.sequence ≤ n) × Old n es

-- The log holds at most its number of records, none ahead of its counter.
pub record IsLog (h : RecentLog) : Type 0 where
  pub bounded : length h.entries ≤ h.max_records
  pub counted : Old h.sequence h.entries

abbrev pub emit_all : RecentLog → List Rendered → RecentLog
emit_all h [] = h
emit_all h (r ∷ rs) = emit_all (emit h (rendered r)) rs

-- The entries of records that are emitted after number `n`.
abbrev pub entries_of : ℕ → List Rendered → List LogEntry
entries_of n [] = []
entries_of n (r ∷ rs) = entry_of (n + 1) r ∷ entries_of (n + 1) rs

Old-drop : (n k : ℕ) (es : List LogEntry) → Old n es → Old n (drop k es)
Old-drop n zero es o = o
Old-drop n (suc k) [] o = o
Old-drop n (suc k) (e ∷ es) o = Old-drop n k es o.1

Old-append : (n : ℕ) (xs ys : List LogEntry) → Old n xs → Old n ys → Old n (xs ++ ys)
Old-append n [] ys o p = p
Old-append n (x ∷ xs) ys o p = (o.0, Old-append n xs ys o.1 p)

Old-later : (n m : ℕ) (es : List LogEntry) → n ≤ m → Old n es → Old m es
Old-later n m [] h o = tt
Old-later n m (e ∷ es) h o = (omega (arith, o.0), Old-later n m es h o.1)

length-push :
    (limit : ℕ) (e : LogEntry) (es : List LogEntry)
    → length es ≤ limit
    → length (push limit e es) ≤ limit
unfolding push
length-push limit e es h =
    omega (arith, length-drop (length es + 1 - limit) (es ++ e ∷ []), length-append es (e ∷ []))

-- Whatever comes of formatting a record, a well-formed log stays within its number of records, and none of its
-- entries is ahead of the counter.
pub emit-IsLog : (h : RecentLog) (o : Formatted) → IsLog h → IsLog (emit h o)
unfolding emit push
emit-IsLog h no_message v = v
emit-IsLog h no_timestamp v = record {
  bounded = v.bounded;
  counted = Old-later h.sequence _ h.entries (omega arith) v.counted;
}
emit-IsLog h (rendered r) v = record {
  bounded = length-push h.max_records _ h.entries v.bounded;
  counted = Old-drop (h.sequence + 1) _ _ (
      Old-append (h.sequence + 1) h.entries _
        (Old-later h.sequence _ h.entries (omega arith) v.counted) (omega arith, tt));
}

newer-Old : (n : ℕ) (xs ys : List LogEntry) → Old n xs → newer n (xs ++ ys) ≡ newer n ys
unfolding newer
newer-Old n [] ys o = refl
newer-Old n (x ∷ xs) ys o = ground (arith, o.0, newer-Old n xs ys o.1)

newer-entries_of :
    (after n : ℕ) (rs : List Rendered) → after ≤ n → newer after (entries_of n rs) ≡ entries_of n rs
unfolding newer
newer-entries_of after n [] h = refl
newer-entries_of after n (r ∷ rs) h = ground (arith, newer-entries_of after (n + 1) rs)

length-entries_of : (n : ℕ) (rs : List Rendered) → length (entries_of n rs) ≡ length rs
length-entries_of n [] = refl
length-entries_of n (r ∷ rs) = omega (arith, length-entries_of (n + 1) rs)

emit_all_lem :
    (after : ℕ) (h : RecentLog) (old new : List LogEntry) (rs : List Rendered)
    → h.entries ≡ old ++ new
    → Old after old
    → length new + length rs ≤ h.max_records
    → (kept : List LogEntry) × ((emit_all h rs).entries ≡ kept ++ (new ++ entries_of h.sequence rs))
      × Old after kept
unfolding emit push
emit_all_lem after h old new [] e o room = (old, e ∙ ap (λ t. old ++ t) (sym (append-nil new)), o)
emit_all_lem after h old new (r ∷ rs) e o room =
    let x : LogEntry = entry_of (h.sequence + 1) r in
    let k : ℕ = length h.entries + 1 - h.max_records in
    let len : length h.entries ≡ length old + length new = ap length e ∙ length-append old new in
    let pushed : push h.max_records x h.entries ≡ drop k old ++ (new ++ x ∷ []) =
      ap (λ t. drop k (t ++ x ∷ [])) e
      ∙ ap (drop k) (append_assoc old new (x ∷ []))
      ∙ drop-append_le k old (new ++ x ∷ []) (omega arith) in
    let (kept, same, past) =
      emit_all_lem after (emit h (rendered r)) (drop k old) (new ++ x ∷ []) rs pushed
        (Old-drop after k old o) (omega (arith, length-append new (x ∷ []))) in
    (
      kept,
      same ∙ ap (λ t. kept ++ t) (append_assoc new (x ∷ []) (entries_of (h.sequence + 1) rs)),
      past,
    )

last_entries_few : (limit : ℕ) (es : List LogEntry) → length es ≤ limit → last_entries limit es ≡ es
unfolding last_entries
last_entries_few limit es h = elim (Bool-cases (limit == 0)) [
  | inl none_asked ↦ rw none_asked
  | inr some_asked ↦ let z : length es - limit ≡ 0 = omega arith in rw (some_asked, z)
]

-- From a well-formed log, after any records that number at most the ring and the reader's limit, a
-- snapshot behind the counter before them is exactly their entries, in order.
pub snapshot-emit_all :
    (h : RecentLog) (rs : List Rendered) (limit : ℕ)
    → IsLog h
    → length rs ≤ h.max_records
    → length rs ≤ limit
    → snapshot h.sequence limit (emit_all h rs) ≡ entries_of h.sequence rs
unfolding snapshot
snapshot-emit_all h rs limit v fits few =
    let (kept, same, past) =
      emit_all_lem h.sequence h h.entries [] rs (sym (append-nil h.entries)) v.counted
        (omega arith) in
    let found : newer h.sequence (emit_all h rs).entries ≡ entries_of h.sequence rs =
      ap (newer h.sequence) same
      ∙ newer-Old h.sequence kept (entries_of h.sequence rs) past
      ∙ newer-entries_of h.sequence h.sequence rs (omega arith) in
    ap (last_entries limit) found
    ∙ last_entries_few limit (entries_of h.sequence rs)
        (omega (arith, length-entries_of h.sequence rs))
