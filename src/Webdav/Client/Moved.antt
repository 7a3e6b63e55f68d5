-- ===== src/Webdav/Client/Moved.antt =====
-- What holds of the server's state is kept by a MOVE whose requests keep it.
use camvault.Prelude.{ℕ, ◌≡◌, ◌++◌, Bool, true, false, some}
use camvault.Read.Range.{Text}
use camvault.Outbox.Paths.{safe_webdav_relative}
use camvault.Webdav.Acts.{
  Failure, backend, invalid, source, Outcome, ok, err, Ends, Post, Keeps, bind-Post, attempt-Post,
  if-Ends, given-Post,
}
use camvault.Webdav.Server.{Target, is_stored, Backend}
use camvault.Webdav.Client.{Client, verified, verify, moved, is_ambiguous, move}
use camvault.Webdav.Client.Kept.{
  Stable, Held, Quiet, Deletes, request-Post, url-Post, best_effort_delete-Keeps,
  object_matches-Keeps,
}

module _ (b : Backend) (P : b.server.State → Type 0) where
  abbrev pub Moves : Text → Text → Type 0
  Moves from to =
      (p q : Target)
      → safe_webdav_relative from ≡ some p
      → safe_webdav_relative to ≡ some q
      → Stable P (λ s. (b.server.move (b.root ++ p) (b.root ++ q) s).1)

  verified-Keeps :
      (from : Text) (failure : Failure) (matches : Bool)
      → Deletes b P from
      → Keeps (Held b P) (verified b from failure matches)
  verified-Keeps from failure true k = best_effort_delete-Keeps b P from k
  verified-Keeps from failure false k = record { ends = λ c h. h }

  verify-Keeps :
      Quiet b P
      → (from to : Text) (size : ℕ) (digest : Text) (failure : Failure) → Deletes b P from
      → Keeps (Held b P) (verify b from to size digest failure)
  unfolding verify
  verify-Keeps quiet from to size digest failure k =
      bind-Post (object_matches-Keeps b P quiet to size digest)
        (λ matches. verified-Keeps from failure matches k)

  -- What follows the MOVE, where the verification keeps `Q` or establishes it.
  pub moved-Post :
      (from to : Text) (size : ℕ) (digest : Text) (Q : Client b → Type 0) (E : Client b → Type 0)
      → ((c : Client b) → Held b P c → E c)
      → ((failure : Failure) → Post (Held b P) (verify b from to size digest failure) (λ _. Q) E)
      → (o : Outcome ℕ)
      → Post
          (λ c.
            Ends (λ status c'. Held b P c' × (is_stored status ≡ true → Q c')) (Held b P) (o, c))
          (moved b from to size digest o)
          (λ _. Q)
          E
  moved-Post from to size digest Q E w k (ok status) = record {
    ends = λ c h.
        if-Ends E (λ _. Q) (is_stored status) _ _ h.1 (λ _. (k (backend (some status))).ends c h.0);
  }
  moved-Post from to size digest Q E w k (err (backend status)) = record {
    ends = λ c h.
        if-Ends E (λ _. Q) (is_ambiguous b status) _ _ (λ _. (k (backend status)).ends c h)
          (λ _. w c h);
  }
  moved-Post from to size digest Q E w k (err invalid) = record { ends = λ c h. w c h }
  moved-Post from to size digest Q E w k (err source) = record { ends = λ c h. w c h }

  pub move-Keeps :
      Quiet b P
      → (from to : Text) (size : ℕ) (digest : Text) → Moves from to
      → Deletes b P from
      → Keeps (Held b P) (move b from to size digest)
  unfolding move
  move-Keeps quiet from to size digest k d =
      bind-Post
        (url-Post b P from
          (λ p.
            (q : Target)
            → safe_webdav_relative to ≡ some q
            → Stable P (λ s. (b.server.move p (b.root ++ q) s).1))
          (λ p e q f. k p q e f))
        (λ p. given-Post _ (λ l.
          bind-Post (url-Post b P to (λ q. Stable P (λ s. (b.server.move p q s).1)) l) (λ q.
            given-Post _ (λ stable.
              bind-Post
                (attempt-Post (Held b P) (
                  request-Post b P (λ status s. P s × (is_stored status ≡ true → P s)) P _ _
                    (λ s h status e f. (stable s h, λ _. stable s h)) stable))
                (moved-Post from to size digest (Held b P) (Held b P) (λ c h. h)
                  (λ failure. verify-Keeps quiet from to size digest failure d))))))
