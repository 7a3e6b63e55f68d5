-- ===== src/Webdav/Upload.antt =====
-- storage.py: `write_prepared` of `WebDAVStorageBackend`, the transaction of a recording and its
-- sidecar.
pub mod Commit
pub mod Pair
pub mod Stored
pub mod Ordered
use camvault.Prelude.{
  ℕ, ◌+◌, ◌-◌, ◌≡◌, List, ◌∷◌, ◌++◌, Bool, true, false, Option, none, some, if◌then◌else◌, length,
  take,
}
use camvault.Read.Range.{Text}
use camvault.Outbox.Paths.{split, path_parts}
use camvault.Webdav.Acts.{Failure, ok, err, Act, ◌>>=◌, ◌>>◌, return, rescue}
use camvault.Webdav.Server.{Target, Backend}
use camvault.Webdav.Body.{Source}
use camvault.Webdav.Client.{
  Client, start, ensure_collections, put, move, best_effort_delete, invalidate_camera,
}
use camvault.Webdav.Paths.{archive_sidecar_path, partial_name}

pub record Prepared : Type 0 where
  pub camera_id : Text
  pub relative_path : Text
  pub size_bytes : ℕ
  pub media_chunks : Source
  pub metadata_chunks : Source
  pub media_size : ℕ
  pub metadata_size : ℕ

-- The camera's directory before the path.
unfoldable pub media_path : Prepared → Text
media_path p = p.camera_id ++ (b'/' ∷ p.relative_path)

unfoldable pub metadata_path : Prepared → Text
unfolding media_path archive_sidecar_path
metadata_path p = archive_sidecar_path (media_path p)

-- `PurePosixPath(…).parent.parts`
unfoldable pub parent_parts : Text → Target
unfolding split path_parts
parent_parts path = let parts = path_parts (split path) in take (length parts - 1) parts

module _ (b : Backend) where
  -- A PUT of the partial object, and its MOVE to the final path.
  unfoldable pub commit : Text → Source → ℕ → Bool → Act (Client b) (Unit {0})
  commit path from size track_media = do
    digest ← put b (partial_name path) from size track_media
    move b (partial_name path) path size digest

  unfoldable pub overwrite : Text → Source → ℕ → Bool → Act (Client b) (Unit {0})
  overwrite path from size track_media = do _ ← put b path from size track_media; return tt

  unfoldable pub store_pair : Prepared → Bool → Act (Client b) (Unit {0})
  store_pair p true = do
    commit (media_path p) p.media_chunks p.media_size true
    commit (metadata_path p) p.metadata_chunks p.metadata_size false
  store_pair p false = do
    overwrite (media_path p) p.media_chunks p.media_size true
    overwrite (metadata_path p) p.metadata_chunks p.metadata_size false

  unfoldable pub clean : Prepared → Act (Client b) (Unit {0})
  clean p = do
    best_effort_delete b (partial_name (media_path p))
    best_effort_delete b (partial_name (metadata_path p))

  abbrev grown : ℕ → Option ℕ → Option ℕ
  grown size none = none
  grown size (some total) = some (total + size)

  abbrev counted : ℕ → Act (Client b) (Unit {0})
  counted size c = (ok tt, record c { managed = grown size c.managed })

  unfoldable pub write_prepared : Prepared → Act (Client b) (Unit {0})
  write_prepared p = do
    start b
    ensure_collections b (b.root ++ parent_parts (media_path p))
    rescue (store_pair p b.atomic_upload) (clean p)
    invalidate_camera b p.camera_id
    counted p.size_bytes
