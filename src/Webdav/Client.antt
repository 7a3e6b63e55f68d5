-- ===== src/Webdav/Client.antt =====
-- storage.py: the requests of `WebDAVStorageBackend`: `_request`, `start`,
-- `_ensure_collection_parts`, `_put`, `_move`, `_object_matches`, `_delete`, `_best_effort_delete`
-- and `_invalidate_camera`. Closing a response has no effect that the code relies on, and the
-- client's username and password are there.
pub mod Kept
pub mod Moved
pub mod Stored
use camvault.Prelude.{
  ℕ, ◌+◌, ◌≡◌, List, [], ◌∷◌, ◌++◌, Bool, true, false, not, ◌&&◌, ◌||◌, Option, none, some,
  if◌then◌else◌, ltb, ◌==◌, flatten, text_eq,
}
use camvault.Crypto.Bytes.{Bytes}
use camvault.Read.Range.{Text}
use camvault.Archive.Names.{padded}
use camvault.Outbox.Paths.{safe_webdav_relative}
use camvault.Webdav.Acts.{
  Failure, backend, invalid, source, Outcome, ok, err, Act, ◌>>=◌, ◌>>◌, after, return, raise,
  attempt,
}
use camvault.Webdav.Server.{Answer, Got, is_stored, Target, Server, Backend}
use camvault.Webdav.Body.{Source, Body, body, fits}

-- The key of a cached listing: the camera, and the hours of the period asked for.
pub record CacheKey : Type 0 where
  pub camera_id : Text
  pub start_hour : Option ℕ
  pub end_hour : Option ℕ

-- The server, and what the backend keeps of `_started`, `_ensured_collections`, the keys of
-- `_records_cache`, `_managed_archive_bytes` and `_last_media_upload_source_chunks`.
pub record Client (b : Backend) : Type 0 where
  pub remote : b.server.State
  pub started : Bool
  pub ensured : List Target
  pub cached : List CacheKey
  pub managed : Option ℕ
  pub source_chunks : ℕ

abbrev pub is_accepted : ℕ → Bool
is_accepted status = status == 200 || status == 202 || status == 204

unfoldable pub target_eq : Target → Target → Bool
target_eq [] [] = true
target_eq [] (c ∷ cs) = false
target_eq (c ∷ cs) [] = false
target_eq (c ∷ cs) (d ∷ ds) = text_eq c d && target_eq cs ds

unfoldable pub is_member : Target → List Target → Bool
unfolding target_eq
is_member p [] = false
is_member p (q ∷ qs) = target_eq p q || is_member p qs

without_camera : Text → List CacheKey → List CacheKey
without_camera camera_id [] = []
without_camera camera_id (key ∷ keys) =
    let rest = without_camera camera_id keys in
    if text_eq key.camera_id camera_id then rest else key ∷ rest

module _ (b : Backend) where
  -- An answer with an expected status, or a `StorageBackendError`.
  abbrev pub answered : (ℕ → Bool) → Answer × b.server.State → Act (Client b) ℕ
  answered expected (none, s) c = (err (backend none), record c { remote = s })
  answered expected (some status, s) c =
      (if expected status then ok status else err (backend (some status)), record c { remote = s })

  unfoldable pub request :
      (ℕ → Bool) → (b.server.State → Answer × b.server.State) → Act (Client b) ℕ
  request expected send c = answered expected (send c.remote) c

  abbrev pub below_root : Option Target → Act (Client b) Target
  below_root none c = (err invalid, c)
  below_root (some parts) c = (ok (b.root ++ parts), c)

  -- `_url`: the parts below the root, or a `ValueError`.
  unfoldable pub url : Text → Act (Client b) Target
  url path = below_root (safe_webdav_relative path)

  abbrev pub made : Target → Act (Client b) (Unit {0})
  made parts c = (ok tt, record c { ensured = parts ∷ c.ensured })

  unfoldable pub make_collection : Target → Act (Client b) (Unit {0})
  make_collection parts = do
    _ ←
        request (λ status. is_stored status || status == 405)
          (λ s. b.server.make_collection parts s)
    made parts

  -- The collections below `done`, one level after the other.
  unfoldable pub ensure_below : Target → Target → Act (Client b) (Unit {0})
  ensure_below done [] c = (ok tt, c)
  ensure_below done (part ∷ parts) c =
      let here = done ++ part ∷ [] in
      let rest = ensure_below here parts in
      if is_member here c.ensured then rest c else (make_collection here >> rest) c

  unfoldable pub ensure_collections : Target → Act (Client b) (Unit {0})
  ensure_collections parts = ensure_below [] parts

  abbrev pub marked : Act (Client b) (Unit {0})
  marked c = (ok tt, record c { started = true })

  unfoldable pub connect : Act (Client b) (Unit {0})
  connect = do
    _ ← request (λ status. status == 200 || status == 204) (λ s. b.server.options s)
    ensure_collections b.root
    marked

  unfoldable pub start : Act (Client b) (Unit {0})
  start c = if c.started then (ok tt, c) else connect c

  -- The request of `_put` with its body: what the body raises goes through the client library.
  abbrev pub sending : Target → Bytes → Option Failure → Act (Client b) ℕ
  sending p bytes none c = request is_stored (b.server.put p bytes true) c
  sending p bytes (some e) c =
      (err e, record c { remote = (b.server.put p bytes false c.remote).1 })

  abbrev pub tracked : Bool → Body → Act (Client b) (Unit {0})
  tracked track_media sent c =
      (ok tt, if track_media then record c { source_chunks = sent.taken } else c)

  -- It returns the digest of what was handed over.
  unfoldable pub put : Text → Source → ℕ → Bool → Act (Client b) Text
  put path from content_length track_media = do
    p ← url path
    let sent = body from.breaks content_length 0 from.chunks
    _ ← sending p (flatten sent.yielded) sent.raises
    tracked track_media sent
    return (b.digest (flatten sent.yielded))

  unfoldable pub delete : Text → Bool → Act (Client b) (Unit {0})
  delete path ignore_missing = do
    p ← url path
    _ ←
        request (λ status. is_accepted status || (ignore_missing && status == 404))
          (λ s. b.server.delete p s)
    return tt

  -- `except (StorageBackendError, ValueError)`
  abbrev pub swallowed : Outcome (Unit {0}) → Act (Client b) (Unit {0})
  swallowed (ok a) = return tt
  swallowed (err (backend status)) = return tt
  swallowed (err invalid) = return tt
  swallowed (err source) = raise source

  unfoldable pub best_effort_delete : Text → Act (Client b) (Unit {0})
  best_effort_delete path = attempt (delete path true) >>= swallowed

  abbrev declares : Option Text → ℕ → Bool
  declares none size = true
  declares (some value) size = text_eq value (padded 1 size)

  -- The response is read while it fits.
  agrees : ℕ → Text → Got → Bool
  unfolding padded fits
  agrees size digest got =
      elim got.status [ none ↦ false | some status ↦ status == 200 ]
      && declares got.declared size
      && fits size 0 got.chunks
      && not got.broken
      && text_eq (b.digest (flatten got.chunks)) digest

  unfoldable pub received : ℕ → Text → Got × b.server.State → Act (Client b) Bool
  unfolding agrees
  received size digest (got, s) c = (ok (agrees size digest got), record c { remote = s })

  unfoldable pub object_matches : Text → ℕ → Text → Act (Client b) Bool
  object_matches path size digest = do
    p ← url path
    λ c. received size digest (b.server.get p c.remote) c

  abbrev pub is_ambiguous : Option ℕ → Bool
  is_ambiguous none = true
  is_ambiguous (some status) = status == 500 || status == 502 || status == 503 || status == 504

  -- The final object is there as it should be, and the partial one goes; or the exception does.
  abbrev pub verified : Text → Failure → Bool → Act (Client b) (Unit {0})
  verified from failure true = best_effort_delete from
  verified from failure false = raise failure

  unfoldable pub verify : Text → Text → ℕ → Text → Failure → Act (Client b) (Unit {0})
  verify from to size digest failure = object_matches to size digest >>= verified from failure

  abbrev pub moved : Text → Text → ℕ → Text → Outcome ℕ → Act (Client b) (Unit {0})
  moved from to size digest (ok status) c =
      if is_stored status then (ok tt, c) else verify from to size digest (backend (some status)) c
  moved from to size digest (err (backend status)) c =
      if is_ambiguous status
      then verify from to size digest (backend status) c
      else (err (backend status), c)
  moved from to size digest (err invalid) c = (err invalid, c)
  moved from to size digest (err source) c = (err source, c)

  abbrev pub is_answer : ℕ → Bool
  is_answer status =
      is_stored status || status == 404 || status == 405 || status == 409 || status == 412

  unfoldable pub move : Text → Text → ℕ → Text → Act (Client b) (Unit {0})
  move from to size digest = do
    p ← url from
    q ← url to
    o ← attempt (request is_answer (λ s. b.server.move p q s))
    moved from to size digest o

  unfoldable pub invalidate_camera : Text → Act (Client b) (Unit {0})
  unfolding without_camera
  invalidate_camera camera_id c = (ok tt, record c { cached = without_camera camera_id c.cached })
