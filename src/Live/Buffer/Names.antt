-- ===== src/Live/Buffer/Names.antt =====
-- The names that a buffer remembers: the last accepted ones, each once, the same in the deque and in
-- the set; so a segment that FFmpeg uploads again is refused.
use camvault.Prelude.{
  ℕ, suc, ◌+◌, ◌-◌, ◌≤◌, ◌<◌, ◌≡◌, refl, sym, ap, ◌∙◌, String, List, [], ◌∷◌, ◌++◌, Bool, true,
  false, ◌||◌, Option, none, some, arith, ◌==◌, length, length-append, drop, str_eq, eq_iff,
  Bool-cases, inl, inr, ◌⊎◌,
}
use camvault.Live.Buffer.{
  LiveBuffer, Recent, contains, discard, set_add, remember_name, accept, add_segment, recent_limit,
  has_segment,
}

-- No name stands twice.
abbrev pub Distinct : List String → Type 0
Distinct [] = Unit
Distinct (x ∷ xs) = (contains x xs ≡ false) × Distinct xs

pub record IsRecent (limit : ℕ) (r : Recent) : Type 0 where
  pub same : r.members ≡ r.names
  pub distinct : Distinct r.names
  pub bounded : length r.names ≤ limit

discard_absent :
    (name : String) (xs : List String) → contains name xs ≡ false → discard name xs ≡ xs
unfolding contains discard
discard_absent name [] h = refl
discard_absent name (x ∷ xs) h = ground (arith, discard_absent name xs)

contains-append :
    (name : String) (xs : List String) (y : String)
    → contains name (xs ++ y ∷ []) ≡ (contains name xs || str_eq y name)
unfolding contains
contains-append name [] y = ground arith
contains-append name (x ∷ xs) y = ground (arith, contains-append name xs y)

Distinct-snoc :
    (xs : List String) (y : String) → Distinct xs → contains y xs ≡ false → Distinct (xs ++ y ∷ [])
unfolding contains
Distinct-snoc [] y d h = (refl, tt)
Distinct-snoc (x ∷ xs) y d h = (
  ground (arith, contains-append x xs y, d.0, eq_iff x y, eq_iff y x),
  Distinct-snoc xs y d.1 (ground arith),
)

contains-tail :
    (name x : String) (xs : List String) → contains name (x ∷ xs) ≡ false → contains name xs ≡ false
unfolding contains
contains-tail name x xs h = ground arith

set_add_fresh :
    (name : String) (xs : List String)
    → contains name xs ≡ false
    → set_add name xs ≡ xs ++ name ∷ []
unfolding set_add
set_add_fresh name xs h = rw h

-- The names that stay: all of them, or all but the oldest.
abbrev pub staying : ℕ → List String → List String
staying limit ns = drop (length ns + 1 - limit) ns

remember_name_lem :
    (limit : ℕ) (name : String) (ns : List String)
    → 0 < limit
    → Distinct ns
    → length ns ≤ limit
    → contains name ns ≡ false
    → (remember_name limit name (record { names = ns; members = ns })
        ≡ record { names = staying limit ns ++ name ∷ []; members = staying limit ns ++ name ∷ [] })
      × Distinct (staying limit ns)
      × (contains name (staying limit ns) ≡ false)
      × (length (staying limit ns) < limit)
unfolding remember_name
remember_name_lem limit name [] pos d b fresh =
    let q : 0 + 1 - limit ≡ 0 = omega arith in
    let e : (0 == limit) ≡ false = ground arith in
    rw (q, e) (rw (set_add_fresh name [] fresh) refl, tt, fresh, omega arith)
remember_name_lem limit name (x ∷ xs) pos d b fresh = elim (Bool-cases (length (x ∷ xs) == limit)) [
  | inl full ↦
      let q : suc (length xs) + 1 - limit ≡ 1 = ground arith in
      let f : contains name xs ≡ false = contains-tail name x xs fresh in
      let self : str_eq x x ≡ true = (eq_iff x x).1 refl in
      rw (q, full, self, discard_absent x xs d.0, f) (refl, d.1, refl, ground arith)
  | inr space ↦
      let q : suc (length xs) + 1 - limit ≡ 0 = ground arith in
      rw (q, space, fresh) (refl, d, refl, ground arith)
]

-- A new name is remembered as the newest one, and beside it the last names that the limit leaves
-- room for; the set stays equal to the deque.
pub remember_name-IsRecent :
    (limit : ℕ) (name : String) (r : Recent)
    → 0 < limit
    → IsRecent limit r
    → contains name r.members ≡ false
    → IsRecent limit (remember_name limit name r)
      × ((remember_name limit name r).names ≡ staying limit r.names ++ name ∷ [])
remember_name-IsRecent limit name r pos v fresh =
    let f : contains name r.names ≡ false = sym (ap (contains name) v.same) ∙ fresh in
    let (e, d, absent, room) = remember_name_lem limit name r.names pos v.distinct v.bounded f in
    let same : r ≡ record { names = r.names; members = r.names } =
      λ i. record { names = r.names; members = v.same i } in
    let whole : remember_name limit name r ≡ _ = ap (remember_name limit name) same ∙ e in
    rw whole (
      record {
        same = refl;
        distinct = Distinct-snoc (staying limit r.names) name d absent;
        bounded = omega (arith, length-append (staying limit r.names) (name ∷ []));
      },
      refl,
    )

contains_self : (xs : List String) (name : String) → contains name (xs ++ name ∷ []) ≡ true
unfolding contains
contains_self [] name = ground (arith, eq_iff name name)
contains_self (x ∷ xs) name = ground (arith, contains_self xs name)

module _ {F T : Type 0} (b : LiveBuffer F T) (name : String) (payload : List ℕ) (at : T)
    (stream : Option String) where
  abbrev known : Bool
  known = has_segment name b.segments || contains name b.recent.members

  refuses : known ≡ true → add_segment b name payload at stream ≡ (none, b)
  unfolding add_segment
  refuses h = rw h

  accepts :
      known ≡ false
      → add_segment b name payload at stream
        ≡ (some (accept b name payload at stream).0, (accept b name payload at stream).1)
  unfolding add_segment
  accepts h = rw h

  accept_recent :
      (accept b name payload at stream).1.recent ≡ remember_name (recent_limit b) name b.recent
  unfolding accept
  accept_recent = refl

  accept_limit : recent_limit (accept b name payload at stream).1 ≡ recent_limit b
  unfolding accept
  accept_limit = refl

module _ {F T : Type 0} (b : LiveBuffer F T) (v : IsRecent (recent_limit b) b.recent) where
  accept-names :
      (name : String) (payload : List ℕ) (at : T) (stream : Option String)
      → contains name b.recent.members ≡ false
      → let b' = (accept b name payload at stream).1 in
        IsRecent (recent_limit b') b'.recent
        × (b'.recent.names ≡ staying (recent_limit b) b.recent.names ++ name ∷ [])
  accept-names name payload at stream fresh =
      rw (accept_limit b name payload at stream, accept_recent b name payload at stream)
        (remember_name-IsRecent (recent_limit b) name b.recent (omega arith) v fresh)

  -- From well-formed recent names, whatever is added, the buffer remembers its last accepted names and no other: a refused segment
  -- changes nothing, and an accepted one becomes the newest name.
  pub add_segment-names :
      (name : String) (payload : List ℕ) (at : T) (stream : Option String)
      → let b' = (add_segment b name payload at stream).1 in
        IsRecent (recent_limit b') b'.recent
        × (((add_segment b name payload at stream).0 ≡ none) × (b' ≡ b)
            ⊎ (b'.recent.names ≡ staying (recent_limit b) b.recent.names ++ name ∷ []))
  add_segment-names name payload at stream = elim (Bool-cases (known b name payload at stream)) [
    | inl old ↦ rw (refuses b name payload at stream old) (v, inl (refl, refl))
    | inr new ↦
        let (good, newest) = accept-names name payload at stream (ground arith) in
        rw (accepts b name payload at stream new) (good, inr newest)
  ]

  -- With well-formed recent names, a segment that was just accepted, or refused, is refused when it
  -- comes again, and the buffer stays as it is.
  pub add_segment_twice :
      (name : String) (payload again : List ℕ) (at later : T) (stream other : Option String)
      → add_segment (add_segment b name payload at stream).1 name again later other
        ≡ (none, (add_segment b name payload at stream).1)
  add_segment_twice name payload again at later stream other =
      elim (Bool-cases (known b name payload at stream)) [
        | inl old ↦ rw (refuses b name payload at stream old) (refuses b name again later other old)
        | inr new ↦
            let b' : LiveBuffer F T = (accept b name payload at stream).1 in
            let (good, newest) = accept-names name payload at stream (ground arith) in
            let seen : contains name b'.recent.members ≡ true =
              ap (contains name) (good.same ∙ newest)
              ∙ contains_self (staying (recent_limit b) b.recent.names) name in
            rw (accepts b name payload at stream new)
              (refuses b' name again later other (ground arith))
      ]
