-- ===== src/Service/Sessions/Held.antt =====
-- At most 64 sessions are held, and a new one is valid until it expires or is revoked.
use camvault.Prelude.{
  ℕ, zero, suc, ◌+◌, ◌*◌, ◌≤◌, ◌<◌, ◌≡◌, ◌≢◌, inl, inr, refl, sym, subst, String, List, [], ◌∷◌,
  Bool, true, false, ◌||◌, none, some, length, ltb, leb, str_eq, eq_iff, if◌then◌else◌, arith,
  Bool-cases,
}
use camvault.Service.Sessions.{
  Session, max_sessions, find, remove, store, prune, oldest, make_room, create_session,
  valid_session, revoke,
}

has : String → List Session → Bool
has token [] = false
has token (s ∷ ss) = str_eq s.token token || has token ss

-- No token stands twice.
abbrev pub Distinct : List Session → Type 0
Distinct [] = Unit {0}
Distinct (s ∷ ss) = (find s.token ss ≡ none) × Distinct ss

str_eq_refl : (x : String) → str_eq x x ≡ true
str_eq_refl x = ground (arith, eq_iff x x)

find-has : (t : String) (ss : List Session) → has t ss ≡ false → find t ss ≡ none
unfolding has find
find-has t [] h = refl
find-has t (s ∷ ss) h = ground (arith, find-has t ss)

-- Removing a token that is there makes the list shorter.
length-remove :
    (t : String) (ss : List Session) → has t ss ≡ true → length (remove t ss) + 1 ≡ length ss
unfolding has remove
length-remove t [] h = cc
length-remove t (s ∷ ss) h = ground (arith, length-remove t ss)

oldest-has : (s : Session) (ss : List Session) → has (oldest s ss).token (s ∷ ss) ≡ true
unfolding has oldest
oldest-has s [] = ground (arith, str_eq_refl s.token)
oldest-has s (t ∷ ts) = elim (Bool-cases (ltb t.expiry s.expiry)) [
  | inl sooner ↦
      subst (λ b. has (oldest (if b then t else s) ts).token (s ∷ t ∷ ts) ≡ true) (sym sooner)
        (ground (arith, oldest-has t ts))
  | inr later ↦
      subst (λ b. has (oldest (if b then t else s) ts).token (s ∷ t ∷ ts) ≡ true) (sym later)
        (ground (arith, oldest-has s ts))
]

length-make_room :
    (fuel : ℕ) (ss : List Session) → length ss ≤ fuel → length (make_room fuel ss) < max_sessions
unfolding make_room
length-make_room zero ss h = omega arith
length-make_room (suc fuel) [] h = omega arith
length-make_room (suc fuel) (s ∷ ss) h =
    let shorter : length (remove (oldest s ss).token (s ∷ ss)) + 1 ≡ length (s ∷ ss) =
      length-remove (oldest s ss).token (s ∷ ss) (oldest-has s ss) in
    ground (arith, length-make_room fuel (remove (oldest s ss).token (s ∷ ss)) (omega arith))

find-store : (new : Session) (ss : List Session) → find new.token (store new ss) ≡ some new.expiry
unfolding find store
find-store new [] = rw (str_eq_refl new.token)
find-store new (s ∷ ss) = ground (arith, str_eq_refl new.token, find-store new ss)

length-store : (new : Session) (ss : List Session) → length (store new ss) ≤ length ss + 1
unfolding store
length-store new [] = omega arith
length-store new (s ∷ ss) = ground (arith, length-store new ss)

find-remove : (t : String) (ss : List Session) → Distinct ss → find t (remove t ss) ≡ none
unfolding find remove
find-remove t [] d = refl
find-remove t (s ∷ ss) d = ground (arith, d.0, find-remove t ss d.1, eq_iff s.token t)

-- A token that is not there stays away, whatever is removed.
find_absent-remove :
    (t u : String) (ss : List Session) → find t ss ≡ none → find t (remove u ss) ≡ none
unfolding find remove
find_absent-remove t u [] h = refl
find_absent-remove t u (s ∷ ss) h = ground (arith, find_absent-remove t u ss)

find_absent-prune :
    (t : String) (now : ℕ) (ss : List Session) → find t ss ≡ none → find t (prune now ss) ≡ none
unfolding find prune
find_absent-prune t now [] h = refl
find_absent-prune t now (s ∷ ss) h = ground (arith, find_absent-prune t now ss)

find_absent-store :
    (t : String) (new : Session) (ss : List Session)
    → find t ss ≡ none
    → str_eq new.token t ≡ false
    → find t (store new ss) ≡ none
unfolding find store
find_absent-store t new [] h k = rw k
find_absent-store t new (s ∷ ss) h k = ground (arith, find_absent-store t new ss)

Distinct-remove : (t : String) (ss : List Session) → Distinct ss → Distinct (remove t ss)
unfolding remove
Distinct-remove t [] d = tt
Distinct-remove t (s ∷ ss) d = elim (Bool-cases (str_eq s.token t)) [
  | inl same ↦ rw same d.1
  | inr other ↦ rw other (find_absent-remove s.token t ss d.0, Distinct-remove t ss d.1)
]

Distinct-prune : (now : ℕ) (ss : List Session) → Distinct ss → Distinct (prune now ss)
unfolding prune
Distinct-prune now [] d = tt
Distinct-prune now (s ∷ ss) d = elim (Bool-cases (leb s.expiry now)) [
  | inl old ↦ rw old (Distinct-prune now ss d.1)
  | inr young ↦ rw young (find_absent-prune s.token now ss d.0, Distinct-prune now ss d.1)
]

Distinct-store : (new : Session) (ss : List Session) → Distinct ss → Distinct (store new ss)
unfolding store find
Distinct-store new [] d = (refl, tt)
Distinct-store new (s ∷ ss) d = elim (Bool-cases (str_eq s.token new.token)) [
  | inl same ↦
      let q : s.token ≡ new.token = ground (arith, eq_iff s.token new.token) in
      rw same (subst (λ x. find x ss ≡ none) q d.0, d.1)
  | inr other ↦
      let q : str_eq new.token s.token ≡ false =
        ground (arith, eq_iff s.token new.token, eq_iff new.token s.token) in
      rw other (find_absent-store s.token new ss d.0 q, Distinct-store new ss d.1)
]

Distinct-make_room : (fuel : ℕ) (ss : List Session) → Distinct ss → Distinct (make_room fuel ss)
unfolding make_room
Distinct-make_room zero ss d = d
Distinct-make_room (suc fuel) [] d = d
Distinct-make_room (suc fuel) (s ∷ ss) d = elim (Bool-cases (leb max_sessions (length (s ∷ ss)))) [
  | inl full ↦ rw full (
      Distinct-make_room fuel (remove (oldest s ss).token (s ∷ ss))
        (Distinct-remove (oldest s ss).token (s ∷ ss) d))
  | inr room ↦ rw room d
]

pub record IsHeld (ss : List Session) : Type 0 where
  pub few : length ss ≤ max_sessions
  pub distinct : Distinct ss

valid_found :
    (now : ℕ) (token : String) (ss : List Session) (expiry : ℕ)
    → str_eq token "" ≡ false
    → find token ss ≡ some expiry
    → leb expiry now ≡ false
    → valid_session now token ss ≡ (true, ss)
unfolding valid_session
valid_found now token ss expiry named found late = rw (named, found, late)

valid_absent :
    (now : ℕ) (token : String) (ss : List Session)
    → find token ss ≡ none
    → valid_session now token ss ≡ (false, ss)
unfolding valid_session
valid_absent now token ss absent = elim (Bool-cases (str_eq token "")) [
  | inl empty ↦ rw empty
  | inr named ↦ rw (named, absent)
]

-- From distinct tokens, a new session leaves at most 64 sessions with distinct tokens, and the new
-- token, where it is not empty, is valid until it expires.
pub create_session-IsHeld :
    (now session_hours later : ℕ) (token : String) (ss : List Session)
    → Distinct ss
    → token ≢ ""
    → later < now + session_hours * 3600
    → IsHeld (create_session now session_hours token ss)
      × (valid_session later token (create_session now session_hours token ss)
          ≡ (true, create_session now session_hours token ss))
unfolding create_session
create_session-IsHeld now session_hours later token ss d named soon =
    let kept : List Session = prune now ss in
    let room : List Session = make_room (length kept) kept in
    let new : Session = record { token = token; expiry = now + session_hours * 3600 } in
    (
      record {
        few =
            omega (arith, length-make_room (length kept) kept (omega arith), length-store new room);
        distinct =
            Distinct-store new room
              (Distinct-make_room (length kept) kept (Distinct-prune now ss d));
      },
      valid_found later token (store new room) new.expiry (ground (arith, eq_iff token ""))
          (find-store new room) (ground arith),
    )

-- With distinct tokens, a token that was revoked is not valid any more, at any time.
pub valid_session-revoke :
    (now : ℕ) (token : String) (ss : List Session)
    → Distinct ss
    → valid_session now token (revoke token ss) ≡ (false, revoke token ss)
unfolding revoke
valid_session-revoke now token ss d =
    valid_absent now token (remove token ss) (find-remove token ss d)
