-- ===== src/Webdav/Client/Stored.antt =====
-- What a PUT and a MOVE that return have left on the server.
use camvault.Prelude.{
  ℕ, ◌≡◌, refl, sym, ap, ◌∙◌, subst, ◌++◌, Bool, true, false, Option, none, some, arith, flatten,
  length, text_eq→eq, text_eq,
}
use camvault.Crypto.Bytes.{Bytes}
use camvault.Read.Range.{Text}
use camvault.Outbox.Paths.{safe_webdav_relative}
use camvault.Webdav.Acts.{
  Failure, Act, ◌>>=◌, Ends, Post, bind-Post, attempt-Post, given-Post, weaken-Post,
}
use camvault.Webdav.Server.{Got, Target, above, is_stored, Backend}
use camvault.Webdav.Body.{Source, Body, body, fits, fits-length, body_whole}
use camvault.Webdav.Client.{
  Client, received, agrees, verified, verify, sending, tracked, url, below_root, put,
  object_matches, move,
}
use camvault.Webdav.Client.Kept.{request-Post, best_effort_delete-Keeps, Deletes}
use camvault.Webdav.Client.Moved.{moved-Post}

abbrev pub Any : {A : Type 0} → A → Type 0
Any a = Unit {0}

module _ (b : Backend) where
  -- The object at a path has the size and the digest.
  pub record Matches (size : ℕ) (digest : Text) (q : Target) (s : b.server.State) : Type 0 where
    pub bytes : Bytes
    pub found : b.server.content q s ≡ some bytes
    pub sized : length bytes ≡ size
    pub digested : b.digest bytes ≡ digest

  url_known :
      (P E : Client b → Type 0) (path : Text) (parts : Target)
      → safe_webdav_relative path ≡ some parts
      → Post P (url b path) (λ p c. (p ≡ b.root ++ parts) × P c) E
  unfolding url
  url_known P E path parts e = record {
    ends = λ c h.
        subst (λ o. Ends (λ p c'. (p ≡ b.root ++ parts) × P c') E (below_root b o c)) (sym e)
          (refl, h);
  }

  with_url :
      {A : Type 0} {P E : Client b → Type 0} {Q : A → Client b → Type 0}
      (f : Target → Act (Client b) A) (path : Text) (parts : Target)
      → safe_webdav_relative path ≡ some parts
      → Post P (f (b.root ++ parts)) Q E
      → Post P (url b path >>= f) Q E
  with_url {A} {P} {E} {Q} f path parts e h = bind-Post (url_known P E path parts e) (λ p.
      given-Post (p ≡ b.root ++ parts)
        (λ same. subst (λ (q : Target). Post P (f q) Q E) (sym same) h))

  sending-Stored :
      (p : Target) (bytes : Bytes) (raises : Option Failure)
      → Post Any
          (sending b p bytes raises)
          (λ status c. (raises ≡ none) × (b.server.content p c.remote ≡ some bytes))
          Any
  sending-Stored p bytes none =
      request-Post b Any
        (λ status s. ◌≡◌ {A = Option Failure} none none × (b.server.content p s ≡ some bytes)) Any _
        _ (λ s h status e f. (refl, b.server.put_stored p bytes s status e f)) (λ s h. tt)
  sending-Stored p bytes (some e) = record { ends = λ c h. tt }

  tracked-Ends :
      (t : Bool) (sent : Body) (P : b.server.State → Type 0) (c : Client b)
      → P c.remote
      → Ends (λ _ c'. P c'.remote) Any (tracked b t sent c)
  tracked-Ends true sent P c h = h
  tracked-Ends false sent P c h = h

  abbrev pub Holds : Bytes → ℕ → Target → b.server.State → Type 0
  Holds bytes size q s = (b.server.content q s ≡ some bytes) × (length bytes ≡ size)

  -- A PUT that returns has stored all of the chunks, of the declared size, and their digest is what
  -- it returns.
  pub put-Stored :
      (path : Text) (from : Source) (content_length : ℕ) (track_media : Bool) (parts : Target)
      → safe_webdav_relative path ≡ some parts
      → Post Any
          (put b path from content_length track_media)
          (λ digest c.
            (digest ≡ b.digest (flatten from.chunks))
            × Holds (flatten from.chunks) content_length (b.root ++ parts) c.remote)
          Any
  unfolding put
  put-Stored path from content_length track_media parts e =
      let q = b.root ++ parts in
      let sent = body from.breaks content_length 0 from.chunks in
      let whole = body_whole from.breaks content_length 0 from.chunks in
      with_url _ path parts e (
        bind-Post (sending-Stored q (flatten sent.yielded) sent.raises) (λ _.
          given-Post (sent.raises ≡ none) (λ r.
            bind-Post
              (record {
                ends =
                    tracked-Ends track_media sent
                      (λ s. b.server.content q s ≡ some (flatten sent.yielded));
              })
              (λ _. record {
                ends = λ c h. (
                  ap b.digest (whole r).0,
                  (h ∙ ap some (whole r).0, omega (arith, (whole r).1)),
                );
              }))))

  agrees_facts :
      (size : ℕ) (digest : Text) (got : Got)
      → agrees b size digest got ≡ true
      → (got.status ≡ some 200)
        × (got.broken ≡ false)
        × (length (flatten got.chunks) ≡ size)
        × (b.digest (flatten got.chunks) ≡ digest)
  unfolding agrees
  agrees_facts size digest got h =
      let f : fits size 0 got.chunks ≡ true = ground arith in
      let t : text_eq (b.digest (flatten got.chunks)) digest ≡ true = ground arith in
      (ground arith, ground arith, omega (arith, fits-length size 0 got.chunks f), text_eq→eq _ _ t)

  object_matches-Matches :
      (path : Text) (size : ℕ) (digest : Text) (parts : Target)
      → safe_webdav_relative path ≡ some parts
      → Post Any
          (object_matches b path size digest)
          (λ same c. same ≡ true → Matches size digest (b.root ++ parts) c.remote)
          Any
  unfolding object_matches received
  object_matches-Matches path size digest parts e =
      let q = b.root ++ parts in
      with_url _ path parts e (record {
        ends = λ c h same.
            let (status, broken, sized, digested) =
              agrees_facts size digest (b.server.get q c.remote).0 same in
            record {
              bytes = flatten (b.server.get q c.remote).0.chunks;
              found =
                  b.server.get-content q q c.remote ∙ b.server.get_whole q c.remote status broken;
              sized = sized;
              digested = digested;
            };
      })

  module _ (from to : Text) (size : ℕ) (digest : Text) (p q : Target)
      (from_p : safe_webdav_relative from ≡ some p) (to_q : safe_webdav_relative to ≡ some q)
      (apart : above (b.root ++ p) (b.root ++ q) ≡ false) where
    abbrev Found : b.server.State → Type 0
    Found = Matches size digest (b.root ++ q)

    Found-Deletes : Deletes b Found from
    Found-Deletes parts e s h =
        let same : parts ≡ p = cc in
        record {
          bytes = h.bytes;
          found = b.server.delete_apart (b.root ++ parts) (b.root ++ q) s (rw same apart) ∙ h.found;
          sized = h.sized;
          digested = h.digested;
        }

    verified-Found :
        (failure : Failure) (same : Bool)
        → Post
            (λ c. same ≡ true → Found c.remote)
            (verified b from failure same)
            (λ _ c. Found c.remote)
            Any
    verified-Found failure true =
        weaken-Post _ Any _ (best_effort_delete-Keeps b Found from Found-Deletes) (λ c h. h refl)
          (λ a c h. h) (λ c h. tt)
    verified-Found failure false = record { ends = λ c h. tt }

    verify-Found :
        (failure : Failure)
        → Post Any (verify b from to size digest failure) (λ _ c. Found c.remote) Any
    unfolding verify
    verify-Found failure =
        bind-Post (object_matches-Matches to size digest q to_q) (verified-Found failure)

    -- A MOVE that returns has left the object at its destination.
    pub move-Matches :
        Post
          (λ c. Matches size digest (b.root ++ p) c.remote)
          (move b from to size digest)
          (λ _ c. Found c.remote)
          Any
    unfolding move
    move-Matches = with_url _ from p from_p (
        with_url _ to q to_q (
          bind-Post
            (attempt-Post Any (
              request-Post b (Matches size digest (b.root ++ p))
                (λ status s. Unit {0} × (is_stored status ≡ true → Found s)) Any _ _
                (λ s h status e f. (
                  tt,
                  λ stored. record {
                    bytes = h.bytes;
                    found = b.server.move_moved _ _ s status e stored ∙ h.found;
                    sized = h.sized;
                    digested = h.digested;
                  },
                ))
                (λ s h. tt)))
            (moved-Post b Any from to size digest (λ c. Found c.remote) Any (λ c h. tt)
              verify-Found)))
