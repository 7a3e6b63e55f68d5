-- ===== src/Outbox/Open.antt =====
-- spool.py: the scan of the directory in `_open`. The lock and the target's fingerprint come before
-- it, and are not modelled.
pub mod Scans
pub mod Recovered
pub mod Complete
use camvault.Prelude.{
  ℕ, zero, suc, ◌+◌, List, [], ◌∷◌, ◌++◌, map, Bool, true, false, Option, none, some, if◌then◌else◌,
  length, take, text_eq,
}
use camvault.Crypto.Bytes.{Bytes}
use camvault.Read.Range.{Text}
use camvault.Outbox.Disk.{
  Name, Kind, pending, partial, committed, Folder, Json, Disk, find, Act, rename, apply, apply_all,
}
use camvault.Outbox.Entry.{
  Entry, Loaded, corrupt, uncaught, loaded, load_entry, identifier, disk_bytes, is_entry_id,
}
use camvault.Outbox.Persist.{Setup, Memory, pending_name, exists, interrupt}
use camvault.Outbox.Replay.{cleanup, remove_key}

pub record Scan : Type 0 where
  pub disk : Disk
  pub entries : List (Text × Entry)
  pub used : ℕ
  pub orphan : ℕ

file_size : Option Bytes → ℕ
file_size none = 0
file_size (some bytes) = length bytes

json_bytes : Option Json → ℕ
json_bytes none = 0
json_bytes (some json) = json.size

unfoldable pub folder_size : Folder → ℕ
unfolding file_size json_bytes
folder_size f = file_size f.media + file_size f.metadata + json_bytes f.manifest

-- `_entries[identifier] = entry`: a key that is there keeps its place.
unfoldable pub set_key : Text → Entry → List (Text × Entry) → List (Text × Entry)
set_key id e [] = (id, e) ∷ []
set_key id e ((key, old) ∷ es) =
    if text_eq key id then (key, e) ∷ es else (key, old) ∷ set_key id e es

-- An entry that is damaged, or not whole, is kept where it is.
unfoldable pub retain : Folder → Scan → Scan
unfolding folder_size
retain f c = record c { orphan = c.orphan + folder_size f }

unfoldable pub add_entry : Setup → Entry → Scan → Scan
unfolding set_key
add_entry s e c = record c {
  entries = set_key (identifier s.name_hash e) e c.entries;
  used = c.used + disk_bytes e;
}

-- A directory that loads. The entry of a renamed one is loaded again from its new place.
settle : Setup → Name → Folder → Entry → Scan → Scan
unfolding add_entry retain apply
settle s n f e c = elim n.kind [
  | partial ↦
      let target = pending_name (identifier s.name_hash e) in
      if exists target c.disk
      then retain f c
      else add_entry s (record e { folder = target })
          (record c { disk = apply (rename n target) c.disk })
  | _ ↦ if text_eq n.id (identifier s.name_hash e) then add_entry s e c else retain f c
]

scan_loaded : Setup → Name → Folder → Scan → Loaded → Option Scan
unfolding settle retain
scan_loaded s n f c corrupt = some (retain f c)
scan_loaded s n f c uncaught = none
scan_loaded s n f c (loaded e) = some (settle s n f e c)

scan_folder : Setup → Name → Scan → Option Folder → Option Scan
unfolding scan_loaded load_entry
scan_folder s n c none = none
scan_folder s n c (some f) = scan_loaded s n f c (load_entry n f)

-- One directory of the listing. `none` is an exception, with which the start fails.
unfoldable pub scan_one : Setup → Name → Scan → Option Scan
unfolding scan_folder apply_all cleanup is_entry_id
scan_one s n c = elim n.kind [
  | committed ↦
      if is_entry_id n.id then some (record c { disk = apply_all (cleanup n) c.disk }) else none
  | _ ↦ scan_folder s n c (find n c.disk)
]

unfoldable pub scan_all : Setup → List Name → Scan → Option Scan
unfolding scan_one
scan_all s [] c = some c
scan_all s (n ∷ ns) c = elim (scan_one s n c) [ none ↦ none | some after ↦ scan_all s ns after ]

abbrev pub listing : Disk → List Name
listing d = map (λ p. p.0) d

abbrev pub start_scan : Disk → Scan
start_scan d = record { disk = d; entries = []; used = 0; orphan = 0 }

unfoldable pub memory_of : Scan → Memory
memory_of c = record {
  entries = c.entries;
  blocked = [];
  used = c.used + c.orphan;
  orphan = c.orphan;
}

unfoldable pub open_outbox : Setup → Disk → Option (Disk × Memory)
unfolding scan_all memory_of
open_outbox s d = elim (scan_all s (listing d) (start_scan d)) [
  | none ↦ none
  | some c ↦ some (c.disk, memory_of c)
]

-- What the scan does to the disk for the next of these directories: a rename is one act.
unfoldable pub next_acts : List Name → List Act
unfolding cleanup is_entry_id
next_acts [] = []
next_acts (n ∷ ns) = elim n.kind [ committed ↦ if is_entry_id n.id then cleanup n else [] | _ ↦ [] ]
