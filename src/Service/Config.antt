-- ===== src/Service/Config.antt =====
-- config_store.py: ConfigStore. A text is its UTF-8 encoding. What parse_config_text and
-- validate_runtime_security make of a text, the UTF-8 decoder and SHA-256 are fields of the store. The
-- store's lock makes each operation one step; no other program changes the files meanwhile.
pub mod Written
pub mod Whole
use camvault.Prelude.{
  ℕ, ◌≡◌, List, [], ◌∷◌, ◌++◌, Bool, true, false, ◌||◌, Option, none, some, if◌then◌else◌, ltb,
  ◌==◌, length, take, text_eq,
}
use camvault.Crypto.Bytes.{Bytes}
use camvault.Read.Range.{Text}

pub record ConfigStore : Type 0 where
  pub max_bytes : ℕ
  pub revision : Bytes → Text
  pub is_utf8 : Bytes → Bool
  pub is_valid : Bytes → Bool

pub record Snapshot : Type 0 where
  pub content : Bytes
  pub revision : Text

-- A `ConfigStoreError`; the last two are `ConfigConflictError`s.
pub data Refusal : Type 0 where
  unreadable : Refusal
  too_large : Refusal
  not_utf8 : Refusal
  has_nul : Refusal
  not_valid : Refusal
  not_updated : Refusal
  no_revision : Refusal
  has_changed : Refusal

pub data Result (A : Type 0) : Type 0 where
  ok : A → Result A
  err : Refusal → Result A

pub record Node : Type 0 where
  pub bytes : Bytes
  pub mode : ℕ

-- The configuration, its backup, and the temporary files beside them, the newest first.
pub record Files : Type 0 where
  pub config : Option Node
  pub backup : Option Node
  pub temporaries : List Node

has_zero : Bytes → Bool
has_zero [] = false
has_zero (c ∷ cs) = c == 0 || has_zero cs

unfoldable pub snapshot_of : ConfigStore → Bytes → Snapshot
snapshot_of s payload = record { content = payload; revision = s.revision payload }

abbrev pub loaded : ConfigStore → Option Node → Result Snapshot
loaded s none = err unreadable
loaded s (some node) =
    if ltb s.max_bytes (length node.bytes)
    then err too_large
    else if s.is_utf8 node.bytes
    then ok (snapshot_of s node.bytes)
    else err not_utf8

unfoldable pub read : ConfigStore → Files → Result Snapshot
unfolding snapshot_of
read s f = loaded s f.config

-- The error that a text is refused with, if any.
unfoldable pub validate : ConfigStore → Bytes → Option Refusal
unfolding has_zero
validate s content =
    if ltb s.max_bytes (length content)
    then some too_large
    else if has_zero content
    then some has_nul
    else if s.is_valid content
    then none
    else some not_valid

pub data Place : Type 0 where
  config_path : Place
  backup_path : Place

abbrev pub set_place : Place → Option Node → Files → Files
set_place config_path node f = record f { config = node }
set_place backup_path node f = record f { backup = node }

-- The call that fails, for a write with the bytes that were written, and whether the temporary file
-- could be removed.
pub data Fault : Type 0 where
  no_temporary : Fault
  write_fails : ℕ → Bool → Fault
  chmod_fails : Bool → Fault
  replace_fails : Bool → Fault

-- What a temporary file is created with.
abbrev private_mode : ℕ
private_mode = 384

abbrev with_temporary : Bytes → ℕ → Files → Files
with_temporary payload mode f = record f {
  temporaries = record { bytes = payload; mode = mode } ∷ f.temporaries;
}

-- The handler of `OSError`.
abbrev removed : Bool → Files → Files → Files
removed true before left = before
removed false before left = left

abbrev pub replaced : Place → Bytes → ℕ → Files → Files
replaced place payload mode f = set_place place (some (record { bytes = payload; mode = mode })) f

unfoldable pub atomic_replace : Place → Bytes → ℕ → Option Fault → Files → Bool × Files
atomic_replace place payload mode none f = (true, replaced place payload mode f)
atomic_replace place payload mode (some no_temporary) f = (false, f)
atomic_replace place payload mode (some (write_fails cut cleans)) f =
    (false, removed cleans f (with_temporary (take cut payload) private_mode f))
atomic_replace place payload mode (some (chmod_fails cleans)) f =
    (false, removed cleans f (with_temporary payload private_mode f))
atomic_replace place payload mode (some (replace_fails cleans)) f =
    (false, removed cleans f (with_temporary payload mode f))

-- What the files are after each call of it; a write may end in the middle.
unfoldable pub replace_stages : Place → Bytes → ℕ → ℕ → Files → List Files
replace_stages place payload mode cut f =
    with_temporary [] private_mode f
    ∷ with_temporary (take cut payload) private_mode f
    ∷ with_temporary payload private_mode f
    ∷ with_temporary payload mode f
    ∷ replaced place payload mode f
    ∷ []

-- The faults of the replacement of the backup and of that of the configuration.
pub record Faults : Type 0 where
  pub backup_fault : Option Fault
  pub config_fault : Option Fault

abbrev swapped : ConfigStore → Bytes → Bool × Files → Result Snapshot × Files
swapped s content (true, f) = (ok (snapshot_of s content), f)
swapped s content (false, f) = (err not_updated, f)

abbrev backed_up : ConfigStore → Bytes → ℕ → Option Fault → Bool × Files → Result Snapshot × Files
backed_up s content mode fault (true, f) =
    swapped s content (atomic_replace config_path content mode fault f)
backed_up s content mode fault (false, f) = (err not_updated, f)

abbrev mode_of : Option Node → ℕ
mode_of none = 0
mode_of (some node) = node.mode

-- The two replacements, with the mode of the file that is there.
update : ConfigStore → Bytes → Snapshot → Faults → Files → Result Snapshot × Files
unfolding atomic_replace snapshot_of
update s content current faults f =
    let mode = mode_of f.config in
    backed_up s content mode faults.config_fault
      (atomic_replace backup_path current.content mode faults.backup_fault f)

abbrev compared :
    ConfigStore → Bytes → Option Text → Result Snapshot → Faults → Files → Result Snapshot × Files
compared s content expected (err e) faults f = (err e, f)
compared s content none (ok current) faults f = (err no_revision, f)
compared s content (some expected) (ok current) faults f =
    if text_eq expected current.revision
    then update s content current faults f
    else (err has_changed, f)

abbrev validated :
    ConfigStore → Bytes → Option Text → Option Refusal → Faults → Files → Result Snapshot × Files
validated s content expected none faults f = compared s content expected (read s f) faults f
validated s content expected (some e) faults f = (err e, f)

unfoldable pub write : ConfigStore → Bytes → Option Text → Faults → Files → Result Snapshot × Files
unfolding validate read update
write s content expected faults f = validated s content expected (validate s content) faults f

abbrev stages_of : Bytes → Option Node → ℕ → ℕ → Files → List Files
stages_of content none cut cut' f = f ∷ []
stages_of content (some old) cut cut' f =
    f ∷ replace_stages backup_path old.bytes old.mode cut f
    ++ replace_stages config_path content old.mode cut' (replaced backup_path old.bytes old.mode f)

-- What the files are after each call of a write whose text and revision are accepted, where the
-- process may end.
unfoldable pub write_stages : Bytes → ℕ → ℕ → Files → List Files
unfolding replace_stages
write_stages content cut cut' f = stages_of content f.config cut cut' f
