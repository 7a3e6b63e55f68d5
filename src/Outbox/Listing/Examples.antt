-- ===== src/Outbox/Listing/Examples.antt =====
-- A listing of one pending recording of ten seconds, while a retry is waited for.
use camvault.Prelude.{◌≡◌, refl, [], ◌∷◌, false, none, some, replicate, All}
use camvault.Read.Range.{Text}
use camvault.Archive.Names.{file_name}
use camvault.Archive.Names.Pattern.{no_stream}
use camvault.Outbox.Entry.{Entry}
use camvault.Outbox.Persist.{pending_name}
use camvault.Outbox.Listing.{Listed, record_of, not_asked, failed, list_records}
use camvault.Outbox.Listing.Shown.{Sorted}
use camvault.Outbox.Listing.Correct.{InWindow, Listable, list_records-Sorted}

-- 20240102T030405+0000
abbrev stamp : Text
stamp =
    b'2' ∷ b'0' ∷ b'2' ∷ b'4' ∷ b'0' ∷ b'1' ∷ b'0' ∷ b'2' ∷ b'T' ∷ b'0' ∷ b'3' ∷ b'0' ∷ b'4' ∷ b'0'
    ∷ b'5' ∷ b'+' ∷ b'0' ∷ b'0' ∷ b'0' ∷ b'0' ∷ []

abbrev path : Text
path = file_name stamp 1 10000 no_stream none (replicate 12 b'a') false

abbrev camera : Text
camera = b'c' ∷ []

abbrev entry : Entry
entry = record {
  folder = pending_name [];
  manifest = record {
    camera_id = camera;
    relative_path = path;
    plaintext_size = 3;
    media_size = 3;
    metadata_size = 2;
    media_hash = [];
    metadata_hash = [];
  };
  json_size = 300;
}

abbrev listed : Listed
listed = record {
  camera_id = camera;
  relative_path = path;
  start = 63839761445000;
  duration = 10000;
  size_bytes = 3;
  stream_id = none;
  audio_index = [];
  encrypted = false;
}

entry_record : record_of entry ≡ some listed
unfolding record_of file_name
entry_record = refl

entry_shown :
    list_records camera (([], entry) ∷ []) not_asked (some 63839761445000) none none
    ≡ some (listed ∷ [])
unfolding list_records file_name
entry_shown = refl

-- A recording that ends where the window starts is not in it, and a remote that fails is not hidden
-- where nothing is pending.
entry_ended :
    list_records camera (([], entry) ∷ []) not_asked (some 63839761455000) none none ≡ some []
unfolding list_records file_name
entry_ended = refl

remote_failed : list_records camera [] failed none none none ≡ none
unfolding list_records
remote_failed = refl

list_records-Sorted_example :
    Sorted (listed ∷ [])
    × All (InWindow (some 63839761445000) none) (listed ∷ [])
    × All (Listable camera (some 63839761445000) none (listed ∷ [])) (([], entry) ∷ [])
list_records-Sorted_example =
    list_records-Sorted camera (([], entry) ∷ []) not_asked (some 63839761445000) none (listed ∷ [])
      entry_shown
