-- ===== src/Archive/Local.antt =====
-- archive.py: write_archive_batch, the local backend's write of one batch that has segments, in the
-- directory of its hour. Its four files there are the recording, the sidecar, and their partial files.
-- The JSON text of a sidecar is an argument, and so is what json.loads and _record_from_metadata make of
-- one, which is a JSON object or no JSON: for another JSON value, the code ends in an `AttributeError`
-- before it changes a file. What was written outlives the process.
pub mod Committed
pub mod Retried
use camvault.Prelude.{
  ℕ, zero, suc, ◌≡◌, List, [], ◌∷◌, ◌++◌, Bool, true, false, not, ◌&&◌, ◌||◌, Option, none, some,
  if◌then◌else◌, ◌==◌, take,
}
use camvault.Crypto.Bytes.{Bytes}

pub record Files : Type 0 where
  pub media : Option Bytes
  pub metadata : Option Bytes
  pub media_partial : Option Bytes
  pub metadata_partial : Option Bytes

-- A sidecar that is a JSON object: its version, whether its format is "mpegts", and the record that
-- its fields make, if they make one.
pub record Payload (R : Type 0) : Type 0 where
  pub version : ℕ
  pub is_mpegts : Bool
  pub record_of : Option R

abbrev is_there : Option Bytes → Bool
is_there none = false
is_there (some bytes) = true

-- `final_path.exists() and not metadata_path.exists()`
abbrev pub is_orphan : Files → Bool
is_orphan f = is_there f.media && not (is_there f.metadata)

abbrev without_orphan : Files → Files
without_orphan f = if is_orphan f then record f { media = none } else f

pub data Act : Type 0 where
  unlink_media_partial : Act
  unlink_metadata_partial : Act
  unlink_orphan : Act
  write_media : Bytes → Act
  write_metadata : Bytes → Act
  replace_media : Act
  replace_metadata : Act

unfoldable pub apply : Act → Files → Files
apply unlink_media_partial f = record f { media_partial = none }
apply unlink_metadata_partial f = record f { metadata_partial = none }
apply unlink_orphan f = without_orphan f
apply (write_media bytes) f = record f { media_partial = some bytes }
apply (write_metadata bytes) f = record f { metadata_partial = some bytes }
apply replace_media f = record f { media = f.media_partial; media_partial = none }
apply replace_metadata f = record f { metadata = f.metadata_partial; metadata_partial = none }

-- A file that is being written holds a first part of its bytes.
unfoldable pub apply_part : ℕ → Act → Files → Files
apply_part cut unlink_media_partial f = f
apply_part cut unlink_metadata_partial f = f
apply_part cut unlink_orphan f = f
apply_part cut (write_media bytes) f = record f { media_partial = some (take cut bytes) }
apply_part cut (write_metadata bytes) f = record f { metadata_partial = some (take cut bytes) }
apply_part cut replace_media f = f
apply_part cut replace_metadata f = f

unfoldable pub apply_all : List Act → Files → Files
unfolding apply
apply_all [] f = f
apply_all (a ∷ rest) f = apply_all rest (apply a f)

-- The first `k` acts, and of a next one that writes the first `cut` bytes, if that was begun.
unfoldable pub interrupt : ℕ → Option ℕ → List Act → Files → Files
unfolding apply apply_part
interrupt k cut [] f = f
interrupt zero none (a ∷ rest) f = f
interrupt zero (some cut) (a ∷ rest) f = apply_part cut a f
interrupt (suc k) cut (a ∷ rest) f = interrupt k cut rest (apply a f)

-- What is cleared before the recording is written.
abbrev pub clearing : List Act
clearing = unlink_media_partial ∷ unlink_metadata_partial ∷ unlink_orphan ∷ []

-- The body of the `try`, and its handler.
abbrev pub committing : Bytes → Bytes → List Act
committing media metadata =
    write_media media ∷ write_metadata metadata ∷ replace_media ∷ replace_metadata ∷ []

abbrev pub handling : List Act
handling = clearing

-- How an attempt goes: to its end, or until a system call fails or the process ends, after `k` acts of
-- the clearing, or after `k` acts of the body and `j` of the handler, which has three.
pub data Fate : Type 0 where
  completes : Fate
  stops_clearing : ℕ → Fate
  stops : ℕ → Option ℕ → ℕ → Fate

-- An exception, or nothing where the process ends.
pub data Written (R : Type 0) : Type 0 where
  returned : R → Written R
  stopped : Written R

module _ {R : Type 0} where
  abbrev usable : Payload R → Option R
  usable p =
      if (p.version == 1 || p.version == 2 || p.version == 3) && p.is_mpegts
      then p.record_of
      else none

  abbrev decoded : Option (Payload R) → Option R
  decoded none = none
  decoded (some p) = usable p

  abbrev loaded : (Bytes → Option (Payload R)) → Option Bytes → Option Bytes → Option R
  loaded read none metadata = none
  loaded read (some media) none = none
  loaded read (some media) (some text) = decoded (read text)

  -- The record of a pair that is already there; an `OSError` of the read of its sidecar is passed over.
  unfoldable pub present : Bool → (Bytes → Option (Payload R)) → Files → Option R
  present can_read read f = if can_read then loaded read f.media f.metadata else none

  unfoldable pub commit : R → Bytes → Bytes → Fate → Files → Written R × Files
  unfolding apply_all interrupt
  commit record_of media metadata completes f =
      (returned record_of, apply_all (clearing ++ committing media metadata) f)
  commit record_of media metadata (stops_clearing k) f = (stopped, interrupt k none clearing f)
  commit record_of media metadata (stops k cut j) f = (
    stopped,
    interrupt j none handling (interrupt k cut (committing media metadata) (apply_all clearing f)),
  )

  abbrev retried : R → Bytes → Bytes → Fate → Files → Option R → Written R × Files
  retried record_of media metadata fate f (some found) = (returned found, f)
  retried record_of media metadata fate f none = commit record_of media metadata fate f

  unfoldable pub write_archive_batch :
      Bool → (Bytes → Option (Payload R)) → R → Bytes → Bytes → Fate → Files → Written R × Files
  unfolding present commit
  write_archive_batch can_read read record_of media metadata fate f =
      retried record_of media metadata fate f (present can_read read f)
