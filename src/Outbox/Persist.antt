-- ===== src/Outbox/Persist.antt =====
-- spool.py: `_persist` and `_register`. What `_persist` decides before it writes is `plan`; what it
-- then does to the disk is a list of acts, of which all, or a first part, happen.

pub mod Laws
pub mod Plans
pub mod Effects
use camvault.Prelude.{
  ℕ, zero, suc, ◌+◌, List, [], ◌∷◌, ◌++◌, Bool, true, false, not, ◌&&◌, ◌||◌, Option, none, some,
  if◌then◌else◌, ltb, leb, ◌==◌, length, take, text_eq,
}
use camvault.Crypto.Bytes.{Bytes}
use camvault.Read.Range.{Text}
use camvault.Outbox.Disk.{
  Name, pending, partial, committed, Folder, Json, Manifest, Disk, find, Act, make_folder,
  write_media, write_metadata, write_manifest, rename, unlink_media, unlink_metadata,
  unlink_manifest, remove_folder, change, apply, apply_all,
}
use camvault.Outbox.Entry.{
  Entry, Loaded, corrupt, uncaught, loaded, load_entry, identifier_of, identifier, disk_bytes,
  manifest_limit,
}

-- The hashes, in hexadecimal, of a name and of a file, the size of a manifest in JSON, and
-- `spool_max_gb` and `spool_min_free_gb` in bytes.
pub record Setup : Type 0 where
  pub name_hash : Text → Text
  pub data_hash : Bytes → Text
  pub json_size : Manifest → ℕ
  pub max_bytes : ℕ
  pub min_free : ℕ

-- `PreparedArchive`: the record's fields that the outbox keeps, what the chunks are together, and the
-- sizes that were computed for them.
pub record Prepared : Type 0 where
  pub camera_id : Text
  pub relative_path : Text
  pub plaintext_size : ℕ
  pub media : Bytes
  pub metadata : Bytes
  pub media_size : ℕ
  pub metadata_size : ℕ

-- `_entries`, `_blocked`, `_used_bytes` and `_orphan_bytes`.
pub record Memory : Type 0 where
  pub entries : List (Text × Entry)
  pub blocked : List Text
  pub used : ℕ
  pub orphan : ℕ

abbrev pub pending_name : Text → Name
pending_name id = record { kind = pending; id = id }

abbrev pub partial_name : Text → Name
partial_name id = record { kind = partial; id = id }

abbrev pub committed_name : Text → Name
committed_name id = record { kind = committed; id = id }

-- `path.exists()`
abbrev pub exists : Name → Disk → Bool
exists n d = elim (find n d) [ none ↦ false | some f ↦ true ]

-- `record`'s and `prepared`'s fields, and what `_write_chunks` returned.
unfoldable pub manifest_of : Setup → Prepared → Manifest
manifest_of s p = record {
  camera_id = p.camera_id;
  relative_path = p.relative_path;
  plaintext_size = p.plaintext_size;
  media_size = length p.media;
  metadata_size = length p.metadata;
  media_hash = s.data_hash p.media;
  metadata_hash = s.data_hash p.metadata;
}

unfoldable pub json_of : Setup → Manifest → Json
json_of s m = record { size = s.json_size m; content = some m }

-- Up to the check of the sizes, and after it.
unfoldable pub write_files : Text → Prepared → List Act
write_files id p =
    make_folder (partial_name id)
    ∷ write_media (partial_name id) p.media
    ∷ write_metadata (partial_name id) p.metadata
    ∷ []

unfoldable pub commit : Setup → Text → Prepared → List Act
unfolding json_of manifest_of
commit s id p =
    write_manifest (partial_name id) (json_of s (manifest_of s p))
    ∷ rename (partial_name id) (pending_name id)
    ∷ []

-- An exception before anything is written, the entry that is there, an exception after the files
-- are written, for their sizes, or a new entry.
pub data Plan : Type 0 where
  refuse : Plan
  present : Entry → Plan
  uneven : List Act → Plan
  write : Entry → List Act → Plan

present_entry : Loaded → Plan
present_entry corrupt = refuse
present_entry uncaught = refuse
present_entry (loaded e) = present e

write_plan : Setup → Text → Prepared → Plan
unfolding write_files commit manifest_of
write_plan s id p =
    if length p.media == p.media_size && length p.metadata == p.metadata_size
    then write
        (record {
          folder = pending_name id;
          manifest = manifest_of s p;
          json_size = s.json_size (manifest_of s p);
        })
        (write_files id p ++ commit s id p)
    else uneven (write_files id p)

unfoldable pub needed : Prepared → ℕ
needed p = p.media_size + p.metadata_size + manifest_limit

new_plan : Setup → Memory → Disk → ℕ → Text → Prepared → Plan
unfolding write_plan needed
new_plan s m d free id p =
    if ltb s.max_bytes (m.used + needed p)
    then refuse
    else if ltb free (needed p + s.min_free)
    then refuse
    else if exists (partial_name id) d
    then refuse
    else write_plan s id p

-- `free` is what `shutil.disk_usage` gives.
unfoldable pub plan : Setup → Memory → Disk → ℕ → Prepared → Plan
unfolding present_entry new_plan
plan s m d free p =
    let id = identifier_of s.name_hash p.camera_id p.relative_path in
    elim (find (pending_name id) d) [
      | some f ↦ present_entry (load_entry (pending_name id) f)
      | none ↦ new_plan s m d free id p
    ]

abbrev pub acts_of : Plan → List Act
acts_of refuse = []
acts_of (present e) = []
acts_of (uneven acts) = acts
acts_of (write e acts) = acts

-- What is left of an act that an error or the end of the process cuts short: nothing, or, of a file
-- that is written, its first part. A manifest's proper part is no JSON.
pub tear : Option ℕ → Act → Disk → Disk
unfolding apply
tear (some cut) (write_media n bytes) d = apply (write_media n (take cut bytes)) d
tear (some cut) (write_metadata n bytes) d = apply (write_metadata n (take cut bytes)) d
tear (some cut) (write_manifest n json) d =
    let part : Json = record { size = cut; content = none } in
    apply (write_manifest n (if ltb cut json.size then part else json)) d
tear cut act d = d

-- The first `k` acts, and what is left of the next.
unfoldable pub interrupt : ℕ → Option ℕ → List Act → Disk → Disk
unfolding tear apply
interrupt k cut [] d = d
interrupt zero cut (a ∷ acts) d = tear cut a d
interrupt (suc k) cut (a ∷ acts) d = interrupt k cut acts (apply a d)

-- What the handler of `OSError` removes, where the directory is there.
unfoldable pub tidy : Text → Disk → List Act
tidy id d =
    if exists (partial_name id) d
    then unlink_manifest (partial_name id)
      ∷ unlink_metadata (partial_name id)
      ∷ unlink_media (partial_name id)
      ∷ remove_folder (partial_name id)
      ∷ []
    else []

unfoldable pub lookup : Text → List (Text × Entry) → Option Entry
lookup id [] = none
lookup id ((key, e) ∷ es) = if text_eq key id then some e else lookup id es

-- `_register`
unfoldable pub register : Setup → Entry → Memory → Memory
unfolding lookup
register s e m = elim (lookup (identifier s.name_hash e) m.entries) [
  | some old ↦ m
  | none ↦ record m {
    entries = m.entries ++ (identifier s.name_hash e, e) ∷ [];
    used = m.used + disk_bytes e;
  }
]
