-- ===== src/Outbox/Listing.antt =====
-- spool.py: `SpoolEntry.record` and `list_records`; storage.py: `_filter_records`. Times are in
-- milliseconds; a limit is not negative.
pub mod Shown
pub mod Merged
pub mod Correct
mod Examples
use camvault.Prelude.{
  ℕ, ◌+◌, ◌-◌, ◌*◌, List, [], ◌∷◌, Bool, true, false, ◌&&◌, Option, none, some, if◌then◌else◌, ltb,
  leb, ◌==◌, length, drop, text_eq,
}
use camvault.Read.Range.{Text}
use camvault.Archive.Names.{AudioPoint, Parsed, not_a_name, division_by_zero, parsed, parse_name}
use camvault.Outbox.Paths.{split, path_parts, last_of}
use camvault.Outbox.Disk.{Manifest}
use camvault.Outbox.Entry.{Entry}

-- `ArchiveRecord`, its fields that a listing needs.
pub record Listed : Type 0 where
  pub camera_id : Text
  pub relative_path : Text
  pub start : ℕ
  pub duration : ℕ
  pub size_bytes : ℕ
  pub stream_id : Option Text
  pub audio_index : List AudioPoint
  pub encrypted : Bool

abbrev pub end_of : Listed → ℕ
end_of r = r.start + r.duration

from_parsed : Manifest → Parsed → Option Listed
from_parsed m not_a_name = none
from_parsed m division_by_zero = none
from_parsed m (parsed p) = some (record {
  camera_id = m.camera_id;
  relative_path = m.relative_path;
  start = 1000 * p.start;
  duration = p.duration;
  size_bytes = m.plaintext_size;
  stream_id = p.stream_id;
  audio_index = p.audio_index;
  encrypted = p.encrypted;
})

-- `SpoolEntry.record`; `none` is an exception.
unfoldable pub record_of : Entry → Option Listed
unfolding from_parsed parse_name split path_parts last_of
record_of e =
    from_parsed e.manifest (parse_name (last_of (path_parts (split e.manifest.relative_path))))

abbrev pub ends_after : Option ℕ → Listed → Bool
ends_after none r = true
ends_after (some start) r = ltb start (end_of r)

abbrev pub starts_before : Option ℕ → Listed → Bool
starts_before none r = true
starts_before (some end) r = ltb r.start end

unfoldable pub keep_where : (Listed → Bool) → List Listed → List Listed
keep_where test [] = []
keep_where test (r ∷ rs) = let rest = keep_where test rs in if test r then r ∷ rest else rest

insert : Listed → List Listed → List Listed
insert r [] = r ∷ []
insert r (x ∷ xs) = let rest = insert r xs in if leb r.start x.start then r ∷ x ∷ xs else x ∷ rest

-- `records.sort(key=lambda record: record.start)`, which keeps the order of equal starts.
unfoldable pub sort_records : List Listed → List Listed
unfolding insert
sort_records [] = []
sort_records (r ∷ rs) = insert r (sort_records rs)

-- `records[-limit:]` where there are more than `limit`; a limit of zero takes them all.
unfoldable pub last_records : Option ℕ → List Listed → List Listed
last_records none rs = rs
last_records (some limit) rs =
    if ltb limit (length rs) then (if limit == 0 then rs else drop (length rs - limit) rs) else rs

unfoldable pub filter_records : Option ℕ → Option ℕ → Option ℕ → List Listed → List Listed
unfolding keep_where sort_records last_records
filter_records start end limit rs =
    last_records limit
      (sort_records (keep_where (starts_before end) (keep_where (ends_after start) rs)))

-- A dictionary by relative paths, and its update.
unfoldable pub set_record : Listed → List Listed → List Listed
set_record r [] = r ∷ []
set_record r (x ∷ xs) =
    let rest = set_record r xs in
    if text_eq x.relative_path r.relative_path then r ∷ xs else x ∷ rest

unfoldable pub update_records : List Listed → List Listed → List Listed
unfolding set_record
update_records rs [] = rs
update_records rs (x ∷ xs) = update_records (set_record x rs) xs

-- The records of a camera's entries; an exception for one is one for all.
also_record : Option Listed → Option (List Listed) → Option (List Listed)
also_record none others = none
also_record (some r) none = none
also_record (some r) (some rs) = some (r ∷ rs)

unfoldable pub local_records : Text → List (Text × Entry) → Option (List Listed)
unfolding also_record record_of
local_records camera [] = some []
local_records camera ((key, e) ∷ es) =
    let rest = local_records camera es in
    if text_eq e.manifest.camera_id camera then also_record (record_of e) rest else rest

-- What the remote gives: it is not asked while a retry is waited for; `failed` is the two
-- exceptions that are taken.
pub data Answer : Type 0 where
  not_asked failed : Answer
  answered : List Listed → Answer

remote_records : List Listed → Answer → Option (List Listed)
remote_records local not_asked = some []
remote_records [] failed = none
remote_records (r ∷ rs) failed = some []
remote_records local (answered rs) = some rs

with_remote :
    Option ℕ → Option ℕ → Option ℕ → List Listed → Option (List Listed) → Option (List Listed)
unfolding filter_records update_records
with_remote start end limit local none = none
with_remote start end limit local (some remote) =
    some (filter_records start end limit (update_records (update_records [] remote) local))

unfoldable pub list_records :
    Text → List (Text × Entry) → Answer → Option ℕ → Option ℕ → Option ℕ → Option (List Listed)
unfolding local_records remote_records with_remote
list_records camera entries answer start end limit = elim (local_records camera entries) [
  | none ↦ none
  | some local ↦ with_remote start end limit local (remote_records local answer)
]
