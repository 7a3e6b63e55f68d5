-- ===== src/Outbox/Entry.antt =====
-- spool.py: `SpoolEntry` and `SpoolingStorageBackend._load_entry`.
pub mod Laws
use camvault.Prelude.{
  ℕ, ◌+◌, List, [], ◌∷◌, ◌++◌, Bool, true, false, ◌&&◌, ◌||◌, Option, none, some, if◌then◌else◌,
  ltb, leb, ◌==◌, length,
}
use camvault.Crypto.Bytes.{Bytes}
use camvault.Read.Range.{Text, is_digit}
use camvault.Archive.Names.Pattern.{is_hex}
use camvault.Outbox.Paths.{Checked, refused, divided, safe, safe_recording_relative}
use camvault.Outbox.Disk.{Name, Folder, Json, Manifest}

-- `SpoolEntry`: the directory, and the manifest's fields.
pub record Entry : Type 0 where
  pub folder : Name
  pub manifest : Manifest
  pub json_size : ℕ

all : (ℕ → Bool) → Text → Bool
all test [] = true
all test (c ∷ cs) = test c && all test cs

-- `_ENTRY_ID.fullmatch`
unfoldable pub is_entry_id : Text → Bool
unfolding all
is_entry_id cs = length cs == 64 && all is_hex cs

is_alnum : ℕ → Bool
is_alnum c = is_digit c || (leb b'A' c && leb c b'Z') || (leb b'a' c && leb c b'z')

-- `_CAMERA_ID.fullmatch`
unfoldable pub is_camera_id : Text → Bool
unfolding is_alnum all
is_camera_id [] = false
is_camera_id (c ∷ cs) =
    is_alnum c && leb (length cs) 63 && all (λ d. is_alnum d || d == b'_' || d == b'-') cs

-- A file of `size` bytes, and not of none.
abbrev pub has_size : ℕ → Option Bytes → Bool
has_size size none = false
has_size size (some bytes) = ltb 0 size && length bytes == size

abbrev pub manifest_limit : ℕ
manifest_limit = 16384

-- An exception that the scan takes, one that it does not take, or the entry.
pub data Loaded : Type 0 where
  corrupt : Loaded
  uncaught : Loaded
  loaded : Entry → Loaded

-- The checks after the path's.
sized : Name → Folder → Json → Manifest → Loaded
unfolding is_entry_id
sized name f json m =
    if is_entry_id m.media_hash
      && is_entry_id m.metadata_hash
      && has_size m.media_size f.media
      && has_size m.metadata_size f.metadata
      && ltb 0 m.plaintext_size
    then loaded (record { folder = name; manifest = m; json_size = json.size })
    else corrupt

checked : Name → Folder → Json → Manifest → Checked → Loaded
unfolding sized
checked name f json m refused = corrupt
checked name f json m divided = uncaught
checked name f json m (safe parts) = sized name f json m

fields : Name → Folder → Json → Option Manifest → Loaded
unfolding is_camera_id checked
fields name f json none = corrupt
fields name f json (some m) =
    if is_camera_id m.camera_id
    then checked name f json m (safe_recording_relative m.relative_path)
    else corrupt

from_json : Name → Folder → Option Json → Loaded
unfolding fields
from_json name f none = corrupt
from_json name f (some json) =
    if ltb manifest_limit json.size then corrupt else fields name f json json.content

unfoldable pub load_entry : Name → Folder → Loaded
unfolding from_json
load_entry name f = from_json name f f.manifest

-- `f"{camera_id}/{relative_path}"`, and its SHA-256 in hexadecimal, `sha`.
abbrev pub identifier_of : (Text → Text) → Text → Text → Text
identifier_of sha camera relative = sha (camera ++ b'/' ∷ relative)

abbrev pub identifier : (Text → Text) → Entry → Text
identifier sha e = identifier_of sha e.manifest.camera_id e.manifest.relative_path

abbrev pub disk_bytes : Entry → ℕ
disk_bytes e = e.manifest.media_size + e.manifest.metadata_size + e.json_size
