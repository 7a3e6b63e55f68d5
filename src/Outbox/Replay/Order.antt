-- ===== src/Outbox/Replay/Order.antt =====
-- The entry that is uploaded next.
use camvault.Prelude.{
  ◌≡◌, refl, ap, subst, List, [], ◌∷◌, true, false, if◌then◌else◌, none, some, arith, All,
  Bool-cases, inl, inr,
}
use camvault.Read.Range.{Text}
use camvault.Outbox.Entry.{Entry}
use camvault.Outbox.Persist.{Memory}
use camvault.Outbox.Replay.{entry_less, member, candidates, least, first_least, choose}

least_All : (P : Entry → Type 0) (a : Entry) (bs : List Entry) → P a → All P bs → P (least a bs)
unfolding least
least_All P a [] h hs = h
least_All P a (b ∷ bs) h hs = elim (Bool-cases (entry_less b a)) [
  | inl less ↦ rw less (least_All P b bs hs.0 hs.1)
  | inr no_less ↦ rw no_less (least_All P a bs h hs.1)
]

candidates-All :
    (P : Entry → Type 0) (blocked : List Text) (es : List (Text × Entry))
    → All (λ x. (member x.0 blocked ≡ false) → P x.1) es
    → All P (candidates blocked es)
unfolding candidates
candidates-All P blocked [] h = tt
candidates-All P blocked ((k, e) ∷ es) h = elim (Bool-cases (member k blocked)) [
  | inl is ↦ rw is (candidates-All P blocked es h.1)
  | inr isnt ↦ rw isnt (h.0 isnt, candidates-All P blocked es h.1)
]

first_least_All :
    (P : Entry → Type 0) (bs : List Entry) (e : Entry) → first_least bs ≡ some e → All P bs → P e
unfolding first_least
first_least_All P [] e h hs = absurd (ground arith)
first_least_All P (b ∷ bs) e h hs =
    let q : least b bs ≡ e = ground arith in subst P q (least_All P b bs hs.0 hs.1)

-- What holds of every unblocked entry holds of the chosen one.
pub choose_free :
    (P : Entry → Type 0) (m : Memory) (e : Entry)
    → choose m ≡ some e
    → All (λ x. (member x.0 m.blocked ≡ false) → P x.1) m.entries
    → P e
unfolding choose
choose_free P m e h hs =
    first_least_All P (candidates m.blocked m.entries) e h (candidates-All P m.blocked m.entries hs)

if_free :
    (blocked : List Text) (P : Entry → Type 0) (es : List (Text × Entry))
    → All (λ x. P x.1) es
    → All (λ x. (member x.0 blocked ≡ false) → P x.1) es
if_free blocked P [] h = tt
if_free blocked P (x ∷ es) h = (λ isnt. h.0, if_free blocked P es h.1)

-- What holds of every entry holds of the chosen one.
pub choose_All :
    (P : Entry → Type 0) (m : Memory) (e : Entry)
    → choose m ≡ some e
    → All (λ x. P x.1) m.entries
    → P e
choose_All P m e h hs = choose_free P m e h (if_free m.blocked P m.entries hs)

-- The entries that are blocked.
abbrev pub blocked_of : List Text → List (Text × Entry) → List (Text × Entry)
blocked_of blocked [] = []
blocked_of blocked ((key, e) ∷ es) =
    let rest = blocked_of blocked es in if member key blocked then (key, e) ∷ rest else rest

none_free :
    (blocked : List Text) (es : List (Text × Entry))
    → first_least (candidates blocked es) ≡ none
    → (blocked_of blocked es ≡ es) × All (λ x. member x.0 blocked ≡ true) es
unfolding candidates first_least
none_free blocked [] h = (refl, tt)
none_free blocked ((k, e) ∷ es) h = elim (Bool-cases (member k blocked)) [
  | inl is ↦
      let (same, all) = none_free blocked es (rw is at h) in
      (rw is (ap (λ t. (k, e) ∷ t) same), (is, all))
  | inr isnt ↦
      absurd (let q : some (least e (candidates blocked es)) ≡ none = rw isnt at h in ground arith)
]

-- Where no entry is chosen, all of them are blocked.
pub choose-none :
    (m : Memory)
    → choose m ≡ none
    → (blocked_of m.blocked m.entries ≡ m.entries)
      × All (λ x. member x.0 m.blocked ≡ true) m.entries
unfolding choose
choose-none m h = none_free m.blocked m.entries h
