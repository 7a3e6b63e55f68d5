-- ===== src/Webdav/Upload/Pair.antt =====
-- The two halves of the pair, and the requests around it.
use camvault.Prelude.{ℕ, ◌≡◌, refl, ◌∙◌, ◌++◌, Bool, true, false, some, flatten}
use camvault.Read.Range.{Text}
use camvault.Outbox.Paths.{safe_webdav_relative}
use camvault.Webdav.Acts.{Post, Keeps, bind-Post, rescue-Post, weaken-Post}
use camvault.Webdav.Server.{Target, Backend}
use camvault.Webdav.Body.{Source}
use camvault.Webdav.Client.{invalidate_camera}
use camvault.Webdav.Client.Kept.{
  Held, Quiet, best_effort_delete-Keeps, start-Keeps, ensure_collections-Keeps, put-Keeps,
}
use camvault.Webdav.Client.Stored.{Any, Matches, put-Stored}
use camvault.Webdav.Upload.{
  Prepared, media_path, metadata_path, commit, overwrite, store_pair, clean, write_prepared,
}
use camvault.Webdav.Upload.Commit.{
  Placed, Seen, Apart, Apart-Deletes, Apart-Puts, commit-Keeps, commit-Matches,
}

module _ (b : Backend) (p : Prepared) (w : Placed b p) where
  -- The object of the recording, and that of its sidecar, is the one that was prepared.
  abbrev pub MediaStored : b.server.State → Type 0
  MediaStored =
      Matches b p.media_size (b.digest (flatten p.media_chunks.chunks)) (b.root ++ w.media)

  abbrev pub MetadataStored : b.server.State → Type 0
  MetadataStored =
      Matches b p.metadata_size (b.digest (flatten p.metadata_chunks.chunks)) (b.root ++ w.metadata)

  pub Matches-Seen : (size : ℕ) (digest : Text) (q : Target) → Seen b (Matches b size digest q) q q
  Matches-Seen size digest q s s' e f h = record {
    bytes = h.bytes;
    found = e ∙ h.found;
    sized = h.sized;
    digested = h.digested;
  }

  pub MediaStored-Seen : Seen b MediaStored (b.root ++ w.media) (b.root ++ w.media)
  MediaStored-Seen = Matches-Seen _ _ _

  pub overwrite-Matches :
      (path : Text) (from : Source) (size : ℕ) (track_media : Bool) (final : Target)
      → safe_webdav_relative path ≡ some final
      → Post Any
          (overwrite b path from size track_media)
          (λ _ c. Matches b size (b.digest (flatten from.chunks)) (b.root ++ final) c.remote)
          Any
  unfolding overwrite
  overwrite-Matches path from size track_media final e =
      bind-Post (put-Stored b path from size track_media final e) (λ digest. record {
        ends = λ c h. record {
          bytes = flatten from.chunks;
          found = h.1.0;
          sized = h.1.1;
          digested = refl;
        };
      })

  pub overwrite-Keeps :
      (P : b.server.State → Type 0) (q r : Target) (seen : Seen b P q r) (path : Text)
      (from : Source) (size : ℕ) (track_media : Bool) (final : Target)
      → safe_webdav_relative path ≡ some final
      → Apart b P q r seen final
      → Keeps (Held b P) (overwrite b path from size track_media)
  unfolding overwrite
  overwrite-Keeps P q r seen path from size track_media final e apart =
      bind-Post
        (put-Keeps b P path from size track_media (Apart-Puts b P q r seen path final e apart))
        (λ digest. record { ends = λ c h. h })

  pub media_commit :
      Post Any
        (commit b (media_path p) p.media_chunks p.media_size true)
        (λ _. Held b MediaStored)
        Any
  media_commit =
      commit-Matches b _ _ _ _ w.media_partial w.media w.media_partial_is w.media_is
        w.media_partial_media

  -- The second half of the pair does not touch the first.
  pub metadata_commit-Keeps :
      Keeps
        (Held b MediaStored)
        (commit b (metadata_path p) p.metadata_chunks p.metadata_size false)
  metadata_commit-Keeps =
      commit-Keeps b MediaStored _ _ MediaStored-Seen _ _ _ _ w.metadata_partial w.metadata
        w.metadata_partial_is w.metadata_is (w.metadata_partial_media, w.metadata_partial_media)
        (w.metadata_media, w.metadata_media)

  pub metadata_overwrite-Keeps :
      Keeps
        (Held b MediaStored)
        (overwrite b (metadata_path p) p.metadata_chunks p.metadata_size false)
  metadata_overwrite-Keeps =
      overwrite-Keeps MediaStored _ _ MediaStored-Seen _ _ _ _ w.metadata w.metadata_is
        (w.metadata_media, w.metadata_media)

  pub clean-Keeps :
      (P : b.server.State → Type 0)
      → Seen b P (b.root ++ w.media) (b.root ++ w.metadata)
      → Keeps (Held b P) (clean b p)
  unfolding clean
  clean-Keeps P seen =
      bind-Post
        (best_effort_delete-Keeps b P _ (
          Apart-Deletes b P _ _ seen _ w.media_partial w.media_partial_is
            (w.media_partial_media, w.media_partial_metadata)))
        (λ _. best_effort_delete-Keeps b P _ (
          Apart-Deletes b P _ _ seen _ w.metadata_partial w.metadata_partial_is
            (w.metadata_partial_media, w.metadata_partial_metadata)))

  -- The requests before and after the pair.
  pub around-Post :
      (P J Q : b.server.State → Type 0)
      → Quiet b P
      → ((s : b.server.State) → P s → J s)
      → Keeps (Held b J) (clean b p)
      → Post (Held b P) (store_pair b p b.atomic_upload) (λ _. Held b Q) (Held b J)
      → Post (Held b P) (write_prepared b p) (λ _. Held b Q) (Held b J)
  unfolding write_prepared invalidate_camera
  around-Post P J Q quiet w k h =
      bind-Post
        (weaken-Post _ (Held b J) _ (start-Keeps b P quiet) (λ c h. h) (λ a c h. h)
          (λ c. w c.remote))
        (λ _.
          bind-Post
            (weaken-Post _ (Held b J) _ (ensure_collections-Keeps b P quiet _) (λ c h. h)
              (λ a c h. h) (λ c. w c.remote))
            (λ _.
              bind-Post (rescue-Post h k)
                (λ _. bind-Post (record { ends = λ c h. h }) (λ _. record { ends = λ c h. h }))))
