-- ===== src/Service/Sessions.antt =====
-- service.py: the browser sessions of `CamVaultService`. The dictionary is a list of tokens with
-- their expiry, in insertion order. Readings of the monotonic clock are numbers; the time and the
-- new token (`secrets.token_urlsafe`) are arguments.
pub mod Held
use camvault.Prelude.{
  ℕ, zero, suc, ◌+◌, ◌*◌, String, List, [], ◌∷◌, Bool, true, false, not, Option, none, some, length,
  ltb, leb, str_eq, if◌then◌else◌,
}

pub record Session : Type 0 where
  pub token : String
  pub expiry : ℕ

abbrev pub max_sessions : ℕ
max_sessions = 64

-- `dict.get`
pub find : String → List Session → Option ℕ
find token [] = none
find token (s ∷ ss) = if str_eq s.token token then some s.expiry else find token ss

-- `dict.pop(token, None)`; a key stands once.
remove : String → List Session → List Session
remove token [] = []
remove token (s ∷ ss) = let rest = remove token ss in if str_eq s.token token then ss else s ∷ rest

-- `sessions[token] = expiry`: in place where the key is there.
store : Session → List Session → List Session
store new [] = new ∷ []
store new (s ∷ ss) = if str_eq s.token new.token then new ∷ ss else s ∷ store new ss

unfoldable pub prune : ℕ → List Session → List Session
prune now [] = []
prune now (s ∷ ss) = if leb s.expiry now then prune now ss else s ∷ prune now ss

-- `min(…, key=expiry)`: the first of the smallest.
oldest : Session → List Session → Session
oldest s [] = s
oldest s (t ∷ ts) = oldest (if ltb t.expiry s.expiry then t else s) ts

-- `while len(…) >= 64`, on fuel: each round removes one, so the length is enough.
make_room : ℕ → List Session → List Session
unfolding oldest remove
make_room zero ss = ss
make_room (suc fuel) [] = []
make_room (suc fuel) (s ∷ ss) =
    let rest = make_room fuel (remove (oldest s ss).token (s ∷ ss)) in
    if leb max_sessions (length (s ∷ ss)) then rest else s ∷ ss

unfoldable pub create_session : ℕ → ℕ → String → List Session → List Session
unfolding make_room store prune
create_session now session_hours token ss =
    let kept = prune now ss in
    store (record { token = token; expiry = now + session_hours * 3600 })
      (make_room (length kept) kept)

-- Whether the token is valid, and the sessions after the call.
unfoldable pub valid_session : ℕ → String → List Session → Bool × List Session
unfolding find remove
valid_session now supplied ss =
    if str_eq supplied "" then (false, ss) else elim (find supplied ss) [
      | none ↦ (false, ss)
      | some expiry ↦ if leb expiry now then (false, remove supplied ss) else (true, ss)
    ]

unfoldable pub revoke : String → List Session → List Session
unfolding remove
revoke supplied ss = remove supplied ss
