-- ===== src/Webdav/Client/Kept.antt =====
-- What holds of the server's state is kept by an operation whose requests keep it.
use camvault.Prelude.{
  ℕ, ◌≡◌, refl, sym, subst, [], ◌∷◌, ◌++◌, Bool, true, false, Option, none, some, Bool-cases, inl,
  inr, if◌then◌else◌,
}
use camvault.Crypto.Bytes.{Bytes}
use camvault.Read.Range.{Text}
use camvault.Outbox.Paths.{safe_webdav_relative}
use camvault.Webdav.Acts.{
  Failure, backend, invalid, source, Outcome, ok, err, Ends, Post, Keeps, bind-Post, attempt-Post,
  if-Post, given-Post,
}
use camvault.Webdav.Server.{Answer, Got, Target, Backend}
use camvault.Webdav.Body.{Source, Body, body}
use camvault.Webdav.Client.{
  Client, is_member, received, swallowed, sending, tracked, answered, below_root, request, url,
  make_collection, connect, ensure_below, ensure_collections, start, put, delete,
  best_effort_delete, object_matches,
}

abbrev pub Stable : {S : Type 0} → (S → Type 0) → (S → S) → Type 0
Stable {S} P f = (s : S) → P s → P (f s)

module _ (b : Backend) (P : b.server.State → Type 0) (R : ℕ → b.server.State → Type 0)
    (E : b.server.State → Type 0) where
  answered-Ends :
      (expected : ℕ → Bool) (r : Answer × b.server.State) (c : Client b)
      → ((status : ℕ) → r.0 ≡ some status → expected status ≡ true → R status r.1)
      → E r.1
      → Ends (λ status c'. R status c'.remote) (λ c'. E c'.remote) (answered b expected r c)
  answered-Ends expected (none, s) c h k = k
  answered-Ends expected (some status, s) c h k =
      let Held = λ (f : Bool).
        Ends (λ n c'. R n c'.remote) (λ c'. E c'.remote)
          ((if f then ok status else err (backend (some status))), record c { remote = s }) in
      elim (Bool-cases (expected status)) [
        | inl e ↦ subst Held (sym e) (h status refl e)
        | inr e ↦ subst Held (sym e) k
      ]

  -- What a request returns is the answer's status, an expected one.
  pub request-Post :
      (expected : ℕ → Bool) (send : b.server.State → Answer × b.server.State)
      → ((s : b.server.State)
          → P s
          → (status : ℕ) → (send s).0 ≡ some status
          → expected status ≡ true
          → R status (send s).1)
      → ((s : b.server.State) → P s → E (send s).1)
      → Post
          (λ c. P c.remote)
          (request b expected send)
          (λ status c. R status c.remote)
          (λ c. E c.remote)
  unfolding request
  request-Post expected send h k = record {
    ends = λ c p. answered-Ends expected (send c.remote) c (h c.remote p) (k c.remote p);
  }

module _ (b : Backend) (P : b.server.State → Type 0) where
  abbrev pub Held : Client b → Type 0
  Held c = P c.remote

  -- The requests that change no object.
  pub record Quiet : Type 0 where
    pub options : Stable P (λ s. (b.server.options s).1)
    pub make_collection : (p : Target) → Stable P (λ s. (b.server.make_collection p s).1)
    pub get : (p : Target) → Stable P (λ s. (b.server.get p s).1)

  pub request-Keeps :
      (expected : ℕ → Bool) (send : b.server.State → Answer × b.server.State)
      → Stable P (λ s. (send s).1)
      → Keeps Held (request b expected send)
  request-Keeps expected send stable =
      request-Post b P (λ _. P) P expected send (λ s h status e f. stable s h) stable

  below_root-Held :
      (parts : Option Target) (c : Client b) → Held c → Ends (λ _. Held) Held (below_root b parts c)
  below_root-Held none c h = h
  below_root-Held (some parts) c h = h

  pub url-Keeps : (path : Text) → Keeps Held (url b path)
  unfolding url
  url-Keeps path = record { ends = below_root-Held (safe_webdav_relative path) }

  module _ (quiet : Quiet) where
    make_collection-Keeps : (parts : Target) → Keeps Held (make_collection b parts)
    unfolding make_collection
    make_collection-Keeps parts =
        bind-Post (request-Keeps _ _ (quiet.make_collection parts))
          (λ _. record { ends = λ c h. h })

    ensure_below-Keeps : (done parts : Target) → Keeps Held (ensure_below b done parts)
    unfolding ensure_below
    ensure_below-Keeps done [] = record { ends = λ c h. h }
    ensure_below-Keeps done (part ∷ parts) =
        let here = done ++ part ∷ [] in
        let rest = ensure_below-Keeps here parts in
        if-Post (λ c. is_member here c.ensured) rest
          (bind-Post (make_collection-Keeps here) (λ _. rest))

    pub ensure_collections-Keeps : (parts : Target) → Keeps Held (ensure_collections b parts)
    unfolding ensure_collections
    ensure_collections-Keeps = ensure_below-Keeps []

    pub start-Keeps : Keeps Held (start b)
    unfolding start connect
    start-Keeps =
        if-Post (λ c. c.started) (record { ends = λ c h. h })
          (bind-Post (request-Keeps _ _ quiet.options)
            (λ _. bind-Post (ensure_collections-Keeps b.root) (λ _. record { ends = λ c h. h })))

    received-Held :
        (size : ℕ) (digest : Text) (r : Got × b.server.State) (c : Client b)
        → P r.1
        → Ends (λ _. Held) Held (received b size digest r c)
    unfolding received
    received-Held size digest (got, s) c h = h

    pub object_matches-Keeps :
        (path : Text) (size : ℕ) (digest : Text) → Keeps Held (object_matches b path size digest)
    unfolding object_matches
    object_matches-Keeps path size digest = bind-Post (url-Keeps path) (λ p. record {
      ends = λ c h. received-Held size digest (b.server.get p c.remote) c (quiet.get p c.remote h);
    })

  -- The paths below the root that a request may change with `P` kept.
  abbrev pub Deletes : Text → Type 0
  Deletes path =
      (parts : Target)
      → safe_webdav_relative path ≡ some parts
      → Stable P (λ s. (b.server.delete (b.root ++ parts) s).1)

  below_root-Ends :
      (o : Option Target) (Q : Target → Type 0) (c : Client b)
      → ((parts : Target) → o ≡ some parts → Q (b.root ++ parts))
      → Held c
      → Ends (λ p c'. Q p × Held c') Held (below_root b o c)
  below_root-Ends none Q c k h = h
  below_root-Ends (some parts) Q c k h = (k parts refl, h)

  -- The path is the root's and its own parts.
  pub url-Post :
      (path : Text) (Q : Target → Type 0)
      → ((parts : Target) → safe_webdav_relative path ≡ some parts → Q (b.root ++ parts))
      → Post Held (url b path) (λ p c. Q p × Held c) Held
  unfolding url
  url-Post path Q k = record { ends = λ c. below_root-Ends (safe_webdav_relative path) Q c k }

  pub delete-Keeps :
      (path : Text) (ignore_missing : Bool)
      → Deletes path
      → Keeps Held (delete b path ignore_missing)
  unfolding delete
  delete-Keeps path ignore_missing k =
      bind-Post (url-Post path (λ p. Stable P (λ s. (b.server.delete p s).1)) k) (λ p.
        given-Post _
          (λ stable. bind-Post (request-Keeps _ _ stable) (λ _. record { ends = λ c h. h })))

  swallowed-Held :
      (o : Outcome (Unit {0})) (c : Client b)
      → Ends (λ _. Held) Held (o, c)
      → Ends (λ _. Held) Held (swallowed b o c)
  swallowed-Held (ok a) c h = h
  swallowed-Held (err (backend status)) c h = h
  swallowed-Held (err invalid) c h = h
  swallowed-Held (err source) c h = h

  pub best_effort_delete-Keeps :
      (path : Text) → Deletes path → Keeps Held (best_effort_delete b path)
  unfolding best_effort_delete
  best_effort_delete-Keeps path k =
      bind-Post (attempt-Post Held (delete-Keeps path true k))
        (λ o. record { ends = swallowed-Held o })

  abbrev pub Puts : Text → Type 0
  Puts path =
      (parts : Target)
      → safe_webdav_relative path ≡ some parts
      → (bytes : Bytes) (whole : Bool)
      → Stable P (λ s. (b.server.put (b.root ++ parts) bytes whole s).1)

  sending-Keeps :
      (p : Target) (bytes : Bytes) (raises : Option Failure)
      → ((whole : Bool) → Stable P (λ s. (b.server.put p bytes whole s).1))
      → Keeps Held (sending b p bytes raises)
  sending-Keeps p bytes none k = request-Keeps _ _ (k true)
  sending-Keeps p bytes (some e) k = record { ends = λ c h. k false c.remote h }

  tracked-Held :
      (t : Bool) (sent : Body) (c : Client b) → Held c → Ends (λ _. Held) Held (tracked b t sent c)
  tracked-Held true sent c h = h
  tracked-Held false sent c h = h

  pub put-Keeps :
      (path : Text) (from : Source) (content_length : ℕ) (track_media : Bool)
      → Puts path
      → Keeps Held (put b path from content_length track_media)
  unfolding put
  put-Keeps path from content_length track_media k =
      let sent = body from.breaks content_length 0 from.chunks in
      bind-Post
        (url-Post path
          (λ p. (bytes : Bytes) (whole : Bool) → Stable P (λ s. (b.server.put p bytes whole s).1))
          k)
        (λ p. given-Post _ (λ stable. bind-Post (sending-Keeps p _ sent.raises (stable _)) (λ _.
          bind-Post (record { ends = tracked-Held track_media sent })
            (λ _. record { ends = λ c h. h }))))
