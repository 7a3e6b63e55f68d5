-- ===== src/Outbox/Replay.antt =====
-- spool.py: which entry `_replay` uploads, and `_remove_committed`.

pub mod Order
pub mod Drain
use camvault.Prelude.{
  ℕ, zero, suc, ◌+◌, ◌-◌, ◌*◌, ◌^◌, min, List, [], ◌∷◌, ◌++◌, Bool, true, false, not, ◌&&◌, ◌||◌,
  Option, none, some, if◌then◌else◌, ltb, leb, ◌==◌, length, text_eq,
}
use camvault.Crypto.Bytes.{Bytes}
use camvault.Read.Range.{Text}
use camvault.Outbox.Disk.{
  Name, Folder, Manifest, Disk, find, Act, rename, unlink_media, unlink_metadata, unlink_manifest,
  remove_folder,
}
use camvault.Outbox.Entry.{Entry, identifier, disk_bytes}
use camvault.Outbox.Persist.{Setup, Memory, committed_name}

-- Python's order on strings.
unfoldable pub text_less : Text → Text → Bool
text_less cs [] = false
text_less [] (d ∷ ds) = true
text_less (c ∷ cs) (d ∷ ds) = ltb c d || ((c == d) && text_less cs ds)

-- The order of the keys `(relative_path, camera_id)`.
unfoldable pub entry_less : Entry → Entry → Bool
unfolding text_less
entry_less a b =
    text_less a.manifest.relative_path b.manifest.relative_path
    || (text_eq a.manifest.relative_path b.manifest.relative_path
        && text_less a.manifest.camera_id b.manifest.camera_id)

abbrev pub member : Text → List Text → Bool
member id [] = false
member id (key ∷ keys) = text_eq key id || member id keys

unfoldable pub candidates : List Text → List (Text × Entry) → List Entry
candidates blocked [] = []
candidates blocked ((key, e) ∷ es) =
    let rest = candidates blocked es in if member key blocked then rest else e ∷ rest

-- `min` keeps the first of the least.
unfoldable pub least : Entry → List Entry → Entry
unfolding entry_less
least a [] = a
least a (b ∷ bs) = least (if entry_less b a then b else a) bs

first_least : List Entry → Option Entry
unfolding least
first_least [] = none
first_least (e ∷ es) = some (least e es)

unfoldable pub choose : Memory → Option Entry
unfolding first_least candidates
choose m = first_least (candidates m.blocked m.entries)

-- The last chunk of `_file_chunks`, for both files: their hashes are those of the manifest.
abbrev pub hash_is : Setup → Text → Option Bytes → Bool
hash_is s hash none = false
hash_is s hash (some bytes) = text_eq (s.data_hash bytes) hash

unfoldable pub intact : Setup → Manifest → Folder → Bool
intact s m f = hash_is s m.media_hash f.media && hash_is s m.metadata_hash f.metadata

-- A rename is refused where the target is a directory that is not empty.
abbrev pub is_empty : Folder → Bool
is_empty f = elim f.media [
  | some b ↦ false
  | none ↦ elim f.metadata [
    | some b ↦ false
    | none ↦ elim f.manifest [ some j ↦ false | none ↦ true ]
  ]
]

unfoldable pub renames : Name → Name → Disk → Bool
renames n m d = elim (find n d) [
  | none ↦ false
  | some f ↦ elim (find m d) [ none ↦ true | some g ↦ is_empty g ]
]

-- `_cleanup_committed`, after its checks.
unfoldable pub cleanup : Name → List Act
cleanup n = unlink_media n ∷ unlink_metadata n ∷ unlink_manifest n ∷ remove_folder n ∷ []

-- `_remove_committed`
unfoldable pub removal : Setup → Entry → List Act
unfolding cleanup
removal s e = let n = committed_name (identifier s.name_hash e) in rename e.folder n ∷ cleanup n

abbrev pub remove_key : Text → List (Text × Entry) → List (Text × Entry)
remove_key id [] = []
remove_key id ((key, e) ∷ es) =
    let rest = remove_key id es in if text_eq key id then rest else (key, e) ∷ rest

-- `_entries.pop` and `_used_bytes -= size`
unfoldable pub forget : Setup → Entry → Memory → Memory
forget s e m = record m {
  entries = remove_key (identifier s.name_hash e) m.entries;
  used = m.used - disk_bytes e;
}

unfoldable pub block : Setup → Entry → Memory → Memory
block s e m = record m { blocked = identifier s.name_hash e ∷ m.blocked }

-- The seconds that are waited after `failures` failures in a row, `failures` at least 1.
unfoldable pub retry_delay : Bool → ℕ → ℕ → ℕ
retry_delay draining retry_seconds failures =
    if draining then 2 else min 300 (retry_seconds * 2 ^ min (failures - 1) 4)

-- `_replay` while every upload succeeds, for at most `n` uploads; the entries that it uploads, in
-- this order, and the memory that is left.
unfoldable pub replay : Setup → ℕ → Memory → List Entry × Memory
unfolding forget choose
replay s zero m = ([], m)
replay s (suc n) m = elim (choose m) [
  | none ↦ ([], m)
  | some e ↦ let (rest, left) = replay s n (forget s e m) in (e ∷ rest, left)
]
