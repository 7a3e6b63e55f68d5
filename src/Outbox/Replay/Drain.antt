-- ===== src/Outbox/Replay/Drain.antt =====
-- Uploads that succeed leave nothing but what is blocked.
use camvault.Prelude.{
  ℕ, zero, suc, ◌≤◌, ◌<◌, ◌≡◌, refl, sym, ◌∙◌, subst, List, [], ◌∷◌, Bool, true, false, none, some,
  if◌then◌else◌, arith, All, length, text_eq, text_eq_refl, text_eq→eq, ◌⊎◌, ◌||◌, Bool-cases,
  Option-cases, inl, inr,
}
use camvault.Read.Range.{Text}
use camvault.Outbox.Entry.{Entry, identifier}
use camvault.Outbox.Persist.{Setup, Memory}
use camvault.Outbox.Replay.{member, candidates, first_least, choose, remove_key, forget, replay}
use camvault.Outbox.Replay.Order.{choose_All, choose_free, choose-none, blocked_of}

-- The key of an entry is its identifier.
abbrev pub Keyed : Setup → List (Text × Entry) → Type 0
Keyed s es = All (λ x. identifier s.name_hash x.1 ≡ x.0) es

length-remove_key_le : (i : Text) (es : List (Text × Entry)) → length (remove_key i es) ≤ length es
length-remove_key_le i [] = omega arith
length-remove_key_le i ((k, e) ∷ es) = ground (arith, length-remove_key_le i es)

abbrev has_key : Text → List (Text × Entry) → Bool
has_key i [] = false
has_key i ((k, e) ∷ es) = if text_eq k i then true else has_key i es

length-remove_key_lt :
    (i : Text) (es : List (Text × Entry))
    → has_key i es ≡ true
    → length (remove_key i es) < length es
length-remove_key_lt i [] h = absurd (ground arith)
length-remove_key_lt i ((k, e) ∷ es) h = elim (Bool-cases (text_eq k i)) [
  | inl here ↦ rw here (omega (arith, length-remove_key_le i es))
  | inr away ↦ rw away (omega (arith, length-remove_key_lt i es (rw away at h)))
]

Keyed-remove_key :
    (s : Setup) (i : Text) (es : List (Text × Entry)) → Keyed s es → Keyed s (remove_key i es)
Keyed-remove_key s i [] h = tt
Keyed-remove_key s i ((k, e) ∷ es) h = elim (Bool-cases (text_eq k i)) [
  | inl gone ↦ rw gone (Keyed-remove_key s i es h.1)
  | inr other ↦ rw other (h.0, Keyed-remove_key s i es h.1)
]

All-has_key :
    (s : Setup) (all es : List (Text × Entry))
    → ((i : Text) → has_key i es ≡ true → has_key i all ≡ true)
    → Keyed s es
    → All (λ x. has_key (identifier s.name_hash x.1) all ≡ true) es
All-has_key s all [] sub h = tt
All-has_key s all ((k, e) ∷ es) sub h = (
  sub _ (
      let q : text_eq k (identifier s.name_hash e) ≡ true =
        subst (λ (x : Text). text_eq k x ≡ true) (sym h.0) (text_eq_refl k) in
      rw q),
  All-has_key s all es
      (λ i has. sub i (elim (Bool-cases (text_eq k i)) [ inl a ↦ rw a | inr b ↦ rw (b, has) ])) h.1,
)

chosen-has_key :
    (s : Setup) (m : Memory) (e : Entry)
    → Keyed s m.entries
    → choose m ≡ some e
    → has_key (identifier s.name_hash e) m.entries ≡ true
chosen-has_key s m e keyed h =
    choose_All (λ x. has_key (identifier s.name_hash x) m.entries ≡ true) m e h
      (All-has_key s m.entries m.entries (λ i has. has) keyed)

no_candidates :
    (blocked : List Text) (es : List (Text × Entry))
    → length es ≡ 0
    → first_least (candidates blocked es) ≡ none
unfolding candidates first_least
no_candidates blocked [] h = refl
no_candidates blocked (x ∷ es) h = absurd (omega arith)

forget-lt :
    (s : Setup) (m : Memory) (e : Entry)
    → Keyed s m.entries
    → choose m ≡ some e
    → length (forget s e m).entries < length m.entries
unfolding forget
forget-lt s m e keyed h = length-remove_key_lt _ m.entries (chosen-has_key s m e keyed h)

Keyed-unblocked :
    (s : Setup) (blocked : List Text) (es : List (Text × Entry))
    → Keyed s es
    → All
        (λ x. (member x.0 blocked ≡ false) → member (identifier s.name_hash x.1) blocked ≡ false)
        es
Keyed-unblocked s blocked [] keyed = tt
Keyed-unblocked s blocked ((k, e) ∷ es) keyed = (
  λ isnt. subst (λ (i : Text). member i blocked ≡ false) (sym keyed.0) isnt,
  Keyed-unblocked s blocked es keyed.1,
)

blocked_of-remove_key :
    (blocked : List Text) (i : Text) (es : List (Text × Entry))
    → member i blocked ≡ false
    → blocked_of blocked (remove_key i es) ≡ blocked_of blocked es
blocked_of-remove_key blocked i [] isnt = refl
blocked_of-remove_key blocked i ((k, e) ∷ es) isnt = elim (Bool-cases (text_eq k i)) [
  | inl gone ↦
      let unblocked : member k blocked ≡ false =
        subst (λ (x : Text). member x blocked ≡ false) (sym (text_eq→eq k i gone)) isnt in
      rw (gone, unblocked) (blocked_of-remove_key blocked i es isnt)
  | inr other ↦ rw (other, blocked_of-remove_key blocked i es isnt)
]

Keyed-forget :
    (s : Setup) (m : Memory) (e : Entry) → Keyed s m.entries → Keyed s (forget s e m).entries
unfolding forget
Keyed-forget s m e keyed = Keyed-remove_key s _ m.entries keyed

-- An entry of this identifier is in the list.
abbrev pub uploads : Setup → Text → List Entry → Bool
uploads s i [] = false
uploads s i (e ∷ es) = text_eq (identifier s.name_hash e) i || uploads s i es

abbrev pub BlockedOrUploaded : Setup → List Text → List Entry → Text × Entry → Type 0
BlockedOrUploaded s blocked uploaded x =
    (member x.0 blocked ≡ true) ⊎ (uploads s x.0 uploaded ≡ true)

one_more :
    (s : Setup) (blocked : List Text) (uploaded : List Entry) (e : Entry) (es : List (Text × Entry))
    → All (BlockedOrUploaded s blocked uploaded) (remove_key (identifier s.name_hash e) es)
    → All (BlockedOrUploaded s blocked (e ∷ uploaded)) es
one_more s blocked uploaded e [] h = tt
one_more s blocked uploaded e ((k, x) ∷ es) h =
    let i = identifier s.name_hash e in
    elim (Bool-cases (text_eq k i)) [
      | inl gone ↦
          let same : text_eq i k ≡ true =
            subst (λ (y : Text). text_eq y k ≡ true) (text_eq→eq k i gone) (text_eq_refl k) in
          (inr (rw same), one_more s blocked uploaded e es (rw gone at h))
      | inr other ↦
          let h' : All (BlockedOrUploaded s blocked uploaded) ((k, x) ∷ remove_key i es) =
            rw other at h in
          (
            elim h'.0 [ inl is ↦ inl is | inr before ↦ inr (ground (arith, before)) ],
            one_more s blocked uploaded e es h'.1,
          )
    ]

all_blocked :
    (s : Setup) (blocked : List Text) (es : List (Text × Entry))
    → All (λ x. member x.0 blocked ≡ true) es
    → All (BlockedOrUploaded s blocked []) es
all_blocked s blocked [] h = tt
all_blocked s blocked (x ∷ es) h = (inl h.0, all_blocked s blocked es h.1)

-- What uploads that succeed upload, and what they leave.
pub record Drained (s : Setup) (m : Memory) (r : List Entry × Memory) : Type 0 where
  pub unblocked : All (λ e. member (identifier s.name_hash e) m.blocked ≡ false) r.0
  pub all : All (BlockedOrUploaded s m.blocked r.0) m.entries
  pub left : r.1.entries ≡ blocked_of m.blocked m.entries
  pub still : r.1.blocked ≡ m.blocked
  pub finished : choose r.1 ≡ none

Drained-none : (s : Setup) (m : Memory) → choose m ≡ none → Drained s m ([], m)
Drained-none s m h =
    let (same, all) = choose-none m h in
    record {
      unblocked = tt;
      all = all_blocked s m.blocked m.entries all;
      left = sym same;
      still = refl;
      finished = h;
    }

Drained-more :
    (s : Setup) (m : Memory) (e : Entry) (r : List Entry × Memory)
    → Keyed s m.entries
    → choose m ≡ some e
    → Drained s (forget s e m) r
    → Drained s m (e ∷ r.0, r.1)
unfolding forget
Drained-more s m e r keyed chosen d =
    let isnt : member (identifier s.name_hash e) m.blocked ≡ false =
      choose_free (λ x. member (identifier s.name_hash x) m.blocked ≡ false) m e chosen
        (Keyed-unblocked s m.blocked m.entries keyed) in
    record {
      unblocked = (isnt, d.unblocked);
      all = one_more s m.blocked r.0 e m.entries d.all;
      left = d.left ∙ blocked_of-remove_key m.blocked _ m.entries isnt;
      still = d.still;
      finished = d.finished;
    }

-- When uploads succeed, as many of them as there are entries upload only entries that are not blocked,
-- and upload each identifier that is not blocked; the blocked entries are left, exactly these, the same
-- identifiers are blocked as before, and there is none left to upload.
pub replay-drains :
    (s : Setup) (n : ℕ) (m : Memory)
    → Keyed s m.entries
    → length m.entries ≤ n
    → Drained s m (replay s n m)
unfolding replay choose
replay-drains s zero m keyed enough =
    Drained-none s m (no_candidates m.blocked m.entries (omega arith))
replay-drains s (suc n) m keyed enough = elim (Option-cases (choose m)) [
  | inl nothing ↦ rw (nothing, replay) (Drained-none s m nothing)
  | inr (e, chosen) ↦
      rw (chosen, replay)
        (Drained-more s m e (replay s n (forget s e m)) keyed chosen (
          replay-drains s n (forget s e m) (Keyed-forget s m e keyed)
            (omega (arith, forget-lt s m e keyed chosen))))
]
