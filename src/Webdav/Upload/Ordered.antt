-- ===== src/Webdav/Upload/Ordered.antt =====
-- In which order `write_prepared` changes the two objects.
use camvault.Prelude.{◌≡◌, refl, ◌∙◌, ◌++◌, Bool, true, false, Option, ◌⊎◌, inl, inr}
use camvault.Crypto.Bytes.{Bytes}
use camvault.Webdav.Acts.{Act, Post, Keeps, bind-Post, weaken-Post, and-Post, either-Ends}
use camvault.Webdav.Server.{Backend}
use camvault.Webdav.Client.{Client}
use camvault.Webdav.Client.Kept.{Held}
use camvault.Webdav.Client.Stored.{Any}
use camvault.Webdav.Upload.{Prepared, store_pair, write_prepared}
use camvault.Webdav.Upload.Commit.{Placed, Seen, Seen-Quiet, commit-Keeps}
use camvault.Webdav.Upload.Pair.{
  MediaStored, MediaStored-Seen, around-Post, overwrite-Matches, overwrite-Keeps, media_commit,
  metadata_commit-Keeps, metadata_overwrite-Keeps, clean-Keeps,
}

module _ (b : Backend) (p : Prepared) (w : Placed b p) where
  -- The sidecar's object is as before, or the recording's is stored.
  abbrev pub Ordered : Option Bytes → b.server.State → Type 0
  Ordered o s = (b.server.content (b.root ++ w.metadata) s ≡ o) ⊎ (MediaStored b p w) s

  abbrev Unchanged : Option Bytes → b.server.State → Type 0
  Unchanged o s = b.server.content (b.root ++ w.metadata) s ≡ o

  Unchanged-Seen :
      (o : Option Bytes) → Seen b (Unchanged o) (b.root ++ w.metadata) (b.root ++ w.metadata)
  Unchanged-Seen o s s' e f h = e ∙ h

  Ordered-Seen : (o : Option Bytes) → Seen b (Ordered o) (b.root ++ w.media) (b.root ++ w.metadata)
  Ordered-Seen o s s' e f (inl h) = inl (f ∙ h)
  Ordered-Seen o s s' e f (inr h) = inr ((MediaStored-Seen b p w) s s' e e h)

  first :
      {m : Act (Client b) (Unit {0})} (o : Option Bytes)
      → Keeps (Held b (Unchanged o)) m
      → Post Any m (λ _. Held b (MediaStored b p w)) Any
      → Post (Held b (Unchanged o)) m (λ _. Held b (MediaStored b p w)) (Held b (Ordered o))
  first o h k = weaken-Post _ _ _ (and-Post h k) (λ c f. (f, tt)) (λ a c f. f.1) (λ c f. inl f.0)

  later :
      {m : Act (Client b) (Unit {0})} (o : Option Bytes)
      → Keeps (Held b (MediaStored b p w)) m
      → Post (Held b (MediaStored b p w)) m (λ _. Held b (Ordered o)) (Held b (Ordered o))
  later o h = weaken-Post _ _ _ h (λ c f. f) (λ a c f. inr f) (λ c f. inr f)

  store_pair-Ordered :
      (o : Option Bytes) (atomic : Bool)
      → Post
          (Held b (Unchanged o))
          (store_pair b p atomic)
          (λ _. Held b (Ordered o))
          (Held b (Ordered o))
  unfolding store_pair
  store_pair-Ordered o true =
      bind-Post
        (first o
          (commit-Keeps b (Unchanged o) _ _ (Unchanged-Seen o) _ _ _ _ w.media_partial w.media
            w.media_partial_is w.media_is (w.media_partial_metadata, w.media_partial_metadata)
            (w.media_metadata, w.media_metadata))
          (media_commit b p w))
        (λ _. later o (metadata_commit-Keeps b p w))
  store_pair-Ordered o false =
      bind-Post
        (first o
          ((overwrite-Keeps b p w) (Unchanged o) _ _ (Unchanged-Seen o) _ _ _ _ w.media w.media_is
            (w.media_metadata, w.media_metadata))
          ((overwrite-Matches b p w) _ _ _ _ w.media w.media_is))
        (λ _. later o (metadata_overwrite-Keeps b p w))

  -- However `write_prepared` ends, the sidecar's object is the one from before, or the object of the
  -- recording has the size and the digest of the chunks that were prepared.
  pub write_prepared-Ordered :
      (c : Client b)
      → Ordered (b.server.content (b.root ++ w.metadata) c.remote) (write_prepared b p c).1.remote
  write_prepared-Ordered c =
      let o = b.server.content (b.root ++ w.metadata) c.remote in
      either-Ends (Held b (Ordered o)) (write_prepared b p c) (
        (around-Post b p w (Unchanged o) (Ordered o) (Ordered o)
            (Seen-Quiet b (Unchanged o) _ _ (Unchanged-Seen o)) (λ s. inl)
            (clean-Keeps b p w (Ordered o) (Ordered-Seen o))
            (store_pair-Ordered o b.atomic_upload)).ends
          c refl)
