-- ===== src/Webdav/Upload/Commit.antt =====
-- What one commit of `write_prepared` leaves on the server, and what it does not touch.
use camvault.Prelude.{ℕ, ◌≡◌, sym, subst, ◌++◌, Bool, false, some, flatten}
use camvault.Read.Range.{Text}
use camvault.Outbox.Paths.{safe_webdav_relative}
use camvault.Webdav.Acts.{Post, Keeps, bind-Post, given-Post, weaken-Post}
use camvault.Webdav.Server.{Target, above, Backend}
use camvault.Webdav.Body.{Source}
use camvault.Webdav.Client.Kept.{Held, Quiet, Puts, Deletes, put-Keeps}
use camvault.Webdav.Client.Moved.{Moves, move-Keeps}
use camvault.Webdav.Client.Stored.{Any, Matches, put-Stored, move-Matches}
use camvault.Webdav.Paths.{partial_name}
use camvault.Webdav.Upload.{Prepared, media_path, metadata_path, commit}

-- The places of a recording's four objects, none of which is another or a collection above it.
pub record Placed (b : Backend) (p : Prepared) : Type 0 where
  pub media : Target
  pub metadata : Target
  pub media_partial : Target
  pub metadata_partial : Target
  pub media_is : safe_webdav_relative (media_path p) ≡ some media
  pub metadata_is : safe_webdav_relative (metadata_path p) ≡ some metadata
  pub media_partial_is : safe_webdav_relative (partial_name (media_path p)) ≡ some media_partial
  pub metadata_partial_is :
      safe_webdav_relative (partial_name (metadata_path p)) ≡ some metadata_partial
  pub media_partial_media : above (b.root ++ media_partial) (b.root ++ media) ≡ false
  pub media_partial_metadata : above (b.root ++ media_partial) (b.root ++ metadata) ≡ false
  pub media_metadata : above (b.root ++ media) (b.root ++ metadata) ≡ false
  pub metadata_media : above (b.root ++ metadata) (b.root ++ media) ≡ false
  pub metadata_partial_media : above (b.root ++ metadata_partial) (b.root ++ media) ≡ false
  pub metadata_partial_metadata : above (b.root ++ metadata_partial) (b.root ++ metadata) ≡ false

module _ (b : Backend) where
  -- What depends on the objects at two paths only.
  abbrev pub Seen : (b.server.State → Type 0) → Target → Target → Type 0
  Seen P q r =
      (s s' : b.server.State)
      → b.server.content q s' ≡ b.server.content q s
      → b.server.content r s' ≡ b.server.content r s
      → P s
      → P s'

  module _ (P : b.server.State → Type 0) (q r : Target) (seen : Seen P q r) where
    pub Seen-Quiet : Quiet b P
    Seen-Quiet = record {
      options = λ s. seen s _ (b.server.options-content q s) (b.server.options-content r s);
      make_collection = λ p s.
          seen s _ (b.server.make_collection-content q p s)
            (b.server.make_collection-content r p s);
      get = λ p s. seen s _ (b.server.get-content p q s) (b.server.get-content p r s);
    }

    abbrev pub Apart : Target → Type 0
    Apart p = (above (b.root ++ p) q ≡ false) × (above (b.root ++ p) r ≡ false)

    pub Apart-Deletes :
        (path : Text) (p : Target) → safe_webdav_relative path ≡ some p → Apart p → Deletes b P path
    Apart-Deletes path p e apart parts f s =
        let same : p ≡ parts = cc in
        let (h, k) = subst Apart same apart in
        seen s _ (b.server.delete_apart _ q s h) (b.server.delete_apart _ r s k)

    pub Apart-Puts :
        (path : Text) (p : Target) → safe_webdav_relative path ≡ some p → Apart p → Puts b P path
    Apart-Puts path p e apart parts f bytes whole s =
        let same : p ≡ parts = cc in
        let (h, k) = subst Apart same apart in
        seen s _ (b.server.put_apart _ q bytes whole s h) (b.server.put_apart _ r bytes whole s k)

    Apart-Moves :
        (path : Text) (p final : Target)
        → safe_webdav_relative (partial_name path) ≡ some p
        → safe_webdav_relative path ≡ some final
        → Apart p
        → Apart final
        → Moves b P (partial_name path) path
    Apart-Moves path p final e f apart apart' parts to g g' s =
        let same : p ≡ parts = cc in
        let same' : final ≡ to = cc in
        let (h, k) = subst Apart same apart in
        let (h', k') = subst Apart same' apart' in
        seen s _ (b.server.move_apart _ _ q s h h') (b.server.move_apart _ _ r s k k')

    -- A commit keeps what depends on other objects, whatever its outcome.
    pub commit-Keeps :
        (path : Text) (from : Source) (size : ℕ) (track_media : Bool) (partial final : Target)
        → safe_webdav_relative (partial_name path) ≡ some partial
        → safe_webdav_relative path ≡ some final
        → Apart partial
        → Apart final
        → Keeps (Held b P) (commit b path from size track_media)
    unfolding commit
    commit-Keeps path from size track_media partial final e f apart apart' =
        bind-Post
          (put-Keeps b P (partial_name path) from size track_media
            (Apart-Puts (partial_name path) partial e apart))
          (λ digest.
            move-Keeps b P Seen-Quiet (partial_name path) path size digest
              (Apart-Moves path partial final e f apart apart')
              (Apart-Deletes (partial_name path) partial e apart))

  -- A commit that returns: the object of the final path is that of the chunks.
  pub commit-Matches :
      (path : Text) (from : Source) (size : ℕ) (track_media : Bool) (partial final : Target)
      → safe_webdav_relative (partial_name path) ≡ some partial
      → safe_webdav_relative path ≡ some final
      → above (b.root ++ partial) (b.root ++ final) ≡ false
      → Post Any
          (commit b path from size track_media)
          (λ _ c. Matches b size (b.digest (flatten from.chunks)) (b.root ++ final) c.remote)
          Any
  unfolding commit
  commit-Matches path from size track_media partial final e f apart =
      bind-Post (put-Stored b (partial_name path) from size track_media partial e) (λ digest.
        given-Post (digest ≡ b.digest (flatten from.chunks)) (λ same.
          weaken-Post _ Any _
            (move-Matches b (partial_name path) path size digest partial final e f apart)
            (λ c h. record {
              bytes = flatten from.chunks;
              found = h.0;
              sized = h.1;
              digested = sym same;
            })
            (λ a c h. subst (λ (d : Text). Matches b size d (b.root ++ final) c.remote) same h)
            (λ c h. tt)))
