-- ===== src/Outbox/World.antt =====
-- The outbox in its world: the disk, the process's memory while it runs, the pairs that the remote
-- has confirmed, and the batches whose `write_batch` has returned. A step is what one operation does
-- under the lock, its errors and the end of the process at any point of it included.

pub mod Sound
pub mod Accepted
pub mod Delivered
pub mod Quiet
pub mod Steps
pub mod Durable
use camvault.Prelude.{
  ℕ, suc, ◌≡◌, List, [], ◌∷◌, ◌++◌, Bool, true, false, ◌&&◌, Option, none, some, if◌then◌else◌,
  take, drop,
}
use camvault.Crypto.Bytes.{Bytes}
use camvault.Read.Range.{Text}
use camvault.Outbox.Disk.{Name, Folder, Manifest, Disk, find, Act, rename, apply, apply_all}
use camvault.Outbox.Entry.{Entry, identifier_of, identifier}
use camvault.Outbox.Persist.{
  Setup, Prepared, Memory, Plan, present, uneven, write, plan, acts_of, interrupt, tidy, register,
  committed_name, lookup,
}
use camvault.Outbox.Replay.{choose, intact, renames, removal, cleanup, forget, block}
use camvault.Outbox.Open.{Scan, scan_all, start_scan, listing, open_outbox, next_acts}

-- A recording as the outbox keeps it and the remote gets it.
pub record Recording : Type 0 where
  pub manifest : Manifest
  pub media : Option Bytes
  pub metadata : Option Bytes

abbrev pub recording : Manifest → Folder → Recording
recording m f = record { manifest = m; media = f.media; metadata = f.metadata }

abbrev pub recording_id : Setup → Recording → Text
recording_id s r = identifier_of s.name_hash r.manifest.camera_id r.manifest.relative_path

-- A batch whose `write_batch` has returned: it was written, or its entry was there already.
pub data Receipt : Type 0 where
  wrote : Prepared → Receipt
  already : Prepared → Receipt

pub record World : Type 0 where
  pub disk : Disk
  pub memory : Option Memory
  pub remote : List Recording
  pub acknowledged : List Receipt
  pub given : List Prepared

abbrev pub id_of : Setup → Prepared → Text
id_of s p = identifier_of s.name_hash p.camera_id p.relative_path

abbrev pub prepared_of : Receipt → Prepared
prepared_of (wrote p) = p
prepared_of (already p) = p

-- `_persist` returned an entry: it is registered, and the batch is acknowledged, unless the task was
-- cancelled.
unfoldable pub accept : Setup → Receipt → Bool → Entry → Disk → Memory → World → World
unfolding register
accept s receipt acknowledge e d m w = record w {
  disk = d;
  memory = some (register s e m);
  acknowledged = (if acknowledge then receipt ∷ [] else []) ++ w.acknowledged;
  given = prepared_of receipt ∷ w.given;
}

unfoldable pub deliver : Setup → Entry → Folder → World → World
deliver s e f w = record w { remote = recording e.manifest f ∷ w.remote }

-- The first `j` acts of the handler of `OSError`.
unfoldable pub tidied : ℕ → Text → Disk → Disk
unfolding tidy interrupt
tidied j id d = interrupt j none (tidy id d) d

pub data Step (s : Setup) : World → World → Type 0 where
  written :
      {w : World} {m : Memory} {e : Entry} {acts : List Act} (free : ℕ) (p : Prepared)
      (acknowledge : Bool)
      → w.memory ≡ some m
      → plan s m w.disk free p ≡ write e acts
      → Step s w (accept s (wrote p) acknowledge e (apply_all acts w.disk) m w)
  found :
      {w : World} {m : Memory} {e : Entry} (free : ℕ) (p : Prepared) (acknowledge : Bool)
      → w.memory ≡ some m
      → plan s m w.disk free p ≡ present e
      → Step s w (accept s (already p) acknowledge e w.disk m w)
  -- The sizes were not the computed ones: the files stay.
  missized :
      {w : World} {m : Memory} {acts : List Act} (free : ℕ) (p : Prepared)
      → w.memory ≡ some m
      → plan s m w.disk free p ≡ uneven acts
      → Step s w (record w { disk = apply_all acts w.disk })
  -- An `OSError` after `k` acts, and the first `j` acts of its handler.
  failed :
      {w : World} {m : Memory} (free : ℕ) (p : Prepared) (k j : ℕ) (cut : Option ℕ)
      → w.memory ≡ some m
      → Step s w (record w {
        disk = tidied j (id_of s p) (interrupt k cut (acts_of (plan s m w.disk free p)) w.disk);
      })
  died_writing :
      {w : World} {m : Memory} (free : ℕ) (p : Prepared) (k : ℕ) (cut : Option ℕ)
      → w.memory ≡ some m
      → Step s w (record w {
        disk = interrupt k cut (acts_of (plan s m w.disk free p)) w.disk;
        memory = none;
      })
  -- The pair is on the remote, and its directory is renamed; what the cleanup did not do is left.
  uploaded :
      {w : World} {m : Memory} {e : Entry} {f : Folder} (k : ℕ)
      → w.memory ≡ some m
      → choose m ≡ some e
      → find e.folder w.disk ≡ some f
      → intact s e.manifest f ≡ true
      → renames e.folder (committed_name (identifier s.name_hash e)) w.disk ≡ true
      → Step s w (
          deliver s e f (record w {
            disk = interrupt (suc k) none (removal s e) w.disk;
            memory = some (forget s e m);
          }))
  -- The pair is on the remote, and its directory could not be renamed.
  kept :
      {w : World} {m : Memory} {e : Entry} {f : Folder}
      → w.memory ≡ some m
      → choose m ≡ some e
      → find e.folder w.disk ≡ some f
      → intact s e.manifest f ≡ true
      → Step s w (deliver s e f w)
  died_uploading :
      {w : World} {m : Memory} {e : Entry} {f : Folder} (k : ℕ)
      → w.memory ≡ some m
      → choose m ≡ some e
      → find e.folder w.disk ≡ some f
      → intact s e.manifest f ≡ true
      → renames e.folder (committed_name (identifier s.name_hash e)) w.disk ≡ true
      → Step s w
          (deliver s e f (record w { disk = interrupt k none (removal s e) w.disk; memory = none }))
  blocked :
      {w : World} {m : Memory} {e : Entry} {f : Folder}
      → w.memory ≡ some m
      → choose m ≡ some e
      → find e.folder w.disk ≡ some f
      → intact s e.manifest f ≡ false
      → Step s w (record w { memory = some (block s e m) })
  stopped : {w : World} → Step s w (record w { memory = none })
  opened :
      {w : World} {d : Disk} {m : Memory}
      → w.memory ≡ none
      → open_outbox s w.disk ≡ some (d, m)
      → Step s w (record w { disk = d; memory = some m })
  -- The scan ended after `k` directories and `j` acts of the next.
  not_opened :
      {w : World} {c : Scan} (k j : ℕ)
      → w.memory ≡ none
      → scan_all s (take k (listing w.disk)) (start_scan w.disk) ≡ some c
      → Step s w (record w { disk = interrupt j none (next_acts (drop k (listing w.disk))) c.disk })

abbrev pub start : World
start = record { disk = []; memory = none; remote = []; acknowledged = []; given = [] }

pub data Reachable (s : Setup) : World → Type 0 where
  begin : Reachable s start
  next : {w after : World} → Reachable s w → Step s w after → Reachable s after
