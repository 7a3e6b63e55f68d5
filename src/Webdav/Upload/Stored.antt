-- ===== src/Webdav/Upload/Stored.antt =====
-- What `write_prepared` leaves on the server when it returns.
use camvault.Prelude.{◌≡◌, ◌++◌, Bool, true, false}
use camvault.Webdav.Acts.{ok, Act, Post, Keeps, bind-Post, weaken-Post, and-Post, returned-Ends}
use camvault.Webdav.Server.{Backend}
use camvault.Webdav.Client.{Client}
use camvault.Webdav.Client.Kept.{Held}
use camvault.Webdav.Client.Stored.{Any}
use camvault.Webdav.Upload.{Prepared, store_pair, write_prepared}
use camvault.Webdav.Upload.Commit.{Placed, Seen-Quiet, commit-Matches}
use camvault.Webdav.Upload.Pair.{
  MediaStored, MetadataStored, around-Post, overwrite-Matches, media_commit, metadata_commit-Keeps,
  metadata_overwrite-Keeps, clean-Keeps,
}

module _ (b : Backend) (p : Prepared) (w : Placed b p) where
  -- A half that keeps what the other one stored, and stores its own.
  second :
      {m : Act (Client b) (Unit {0})}
      → Keeps (Held b (MediaStored b p w)) m
      → Post Any m (λ _. Held b (MetadataStored b p w)) Any
      → Post
          (Held b (MediaStored b p w))
          m
          (λ _ c. (MediaStored b p w) c.remote × (MetadataStored b p w) c.remote)
          Any
  second h k = weaken-Post _ Any _ (and-Post h k) (λ c f. (f, tt)) (λ a c f. f) (λ c f. tt)

  store_pair-Stored :
      (atomic : Bool)
      → Post Any
          (store_pair b p atomic)
          (λ _ c. (MediaStored b p w) c.remote × (MetadataStored b p w) c.remote)
          Any
  unfolding store_pair
  store_pair-Stored true = bind-Post (media_commit b p w) (λ _.
      second (metadata_commit-Keeps b p w) (
        commit-Matches b _ _ _ _ w.metadata_partial w.metadata w.metadata_partial_is w.metadata_is
          w.metadata_partial_metadata))
  store_pair-Stored false = bind-Post ((overwrite-Matches b p w) _ _ _ _ w.media w.media_is) (λ _.
      second (metadata_overwrite-Keeps b p w)
        ((overwrite-Matches b p w) _ _ _ _ w.metadata w.metadata_is))

  -- If `write_prepared` returns, then the object of the recording, and that of its sidecar, has the
  -- size and the digest of the chunks that were prepared, whatever the server answered on the way.
  pub write_prepared-Stored :
      (c c' : Client b)
      → write_prepared b p c ≡ (ok tt, c')
      → MediaStored b p w c'.remote × MetadataStored b p w c'.remote
  write_prepared-Stored c c' e = returned-Ends Any _ (write_prepared b p c) tt c' e (
      (around-Post b p w Any Any (λ s. MediaStored b p w s × MetadataStored b p w s)
          (Seen-Quiet b Any (b.root ++ w.media) (b.root ++ w.metadata) (λ s s' e f h. tt))
          (λ s h. tt) (clean-Keeps b p w Any (λ s s' e f h. tt))
          (store_pair-Stored b.atomic_upload)).ends
        c tt)
