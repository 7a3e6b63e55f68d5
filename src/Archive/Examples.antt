-- ===== src/Archive/Examples.antt =====
-- A camera with room for 100 bytes, its seconds counted by numbers, and a directory with a sidecar that
-- cannot be read.
use camvault.Prelude.{
  ℕ, ◌+◌, ◌≡◌, ◌==◌, refl, List, Bool, Option, some, true, if◌then◌else◌, [], ◌∷◌, false, none, max,
  leb, arith,
}
use camvault.Live.Segment.{Segment}
use camvault.Archive.Accumulator.{Floats, Accumulator, add}
use camvault.Archive.Accumulator.Sealed.{Keeps, add-Keeps}
use camvault.Crypto.Bytes.{Bytes}
use camvault.Archive.Local.{
  Files, Payload, present, Fate, completes, stops, stops_clearing, returned, write_archive_batch,
}
use camvault.Archive.Local.Committed.{
  IsPaired, IsCleared, write_archive_batch-IsPaired, write_archive_batch-IsCleared,
}
use camvault.Archive.Local.Retried.{IsFinal, attempts, write_archive_batch-retried}
use camvault.Archive.Manager.{idle, Camera, Step, Reach, begin_add, limit_check, accept}
use camvault.Archive.Manager.Flow.{Flows, Reach-Flows}

abbrev whole_seconds : Floats ℕ
whole_seconds = record {
  zero_seconds = 0;
  add_seconds = λ a b. a + b;
  at_least = λ a b. leb b a;
  positive = λ a. max 1 a;
}

abbrev clip : Segment ℕ ℕ
clip = record {
  sequence = 0;
  name = "a.ts";
  payload = 1 ∷ 2 ∷ 3 ∷ [];
  created_at = 0;
  duration = 4;
  stream_id = none;
  discontinuity_sequence = 0;
  audio_rms_db = none;
  audio_active = false;
}

abbrev collected : Accumulator ℕ ℕ
collected = record {
  camera_id = "door";
  target_seconds = 6;
  max_bytes = 50;
  segments = clip ∷ [];
  duration = 4;
  bytes = 3;
}

add-Keeps_example : Keeps (clip ∷ clip ∷ []) (add whole_seconds collected clip "id")
add-Keeps_example = add-Keeps whole_seconds collected clip "id" refl

abbrev camera : Camera ℕ ℕ
camera = record {
  max_bytes = 100;
  accumulator = record collected { segments = []; duration = 0; bytes = 0 };
  queue = [];
  ingest = idle;
  worker = none;
  retained = 0;
  closing = false;
  accepted = [];
  written = [];
}

camera-Flows : Flows camera
camera-Flows = record { history = refl; retained = refl; within = omega arith; counted = refl }

abbrev asked : Camera ℕ ℕ
asked = begin_add whole_seconds camera clip none "id" "id"

asks : Reach whole_seconds camera asked
asks = Reach.next Reach.here (Step.add_begins clip none "id" "id" refl refl (omega arith))

abbrev took : Camera ℕ ℕ
took = accept whole_seconds asked clip "id"

takes_clip : Reach whole_seconds camera took
unfolding begin_add limit_check
takes_clip = Reach.next asks (Step.reserves clip "id" refl refl (omega arith))

Reach-Flows_example : Flows took
Reach-Flows_example = Reach-Flows whole_seconds camera-Flows takes_clip

-- The sidecar "7" is read as the record 5, and no other text is JSON.
reader : Bytes → Option (Payload ℕ)
reader [] = none
reader (c ∷ cs) =
    if c == 7 then some (record { version = 3; is_mpegts = true; record_of = some 5 }) else none

abbrev sevens : Bytes
sevens = 7 ∷ []

-- A recording whose sidecar is no JSON.
abbrev half_done : Files
half_done = record {
  media = some (1 ∷ []);
  metadata = some (8 ∷ []);
  media_partial = none;
  metadata_partial = some [];
}

half_done-IsPaired : IsPaired half_done
half_done-IsPaired e = cc

unreadable : present true reader half_done ≡ none
unfolding present reader
unreadable = refl

read_as_5 : reader sevens ≡ some (record { version = 3; is_mpegts = true; record_of = some 5 })
unfolding reader
read_as_5 = refl

write_archive_batch-IsPaired_example :
    IsPaired (write_archive_batch false reader 5 (1 ∷ 2 ∷ []) sevens (stops 3 none 1) half_done).1
write_archive_batch-IsPaired_example =
    write_archive_batch-IsPaired reader 5 (1 ∷ 2 ∷ []) sevens false (stops 3 none 1) half_done
      half_done-IsPaired

write_archive_batch-IsCleared_example :
    IsCleared
      (write_archive_batch true reader 5 (1 ∷ 2 ∷ []) sevens (stops 0 (some 1) 3) half_done).1
write_archive_batch-IsCleared_example =
    write_archive_batch-IsCleared reader 5 (1 ∷ 2 ∷ []) sevens true 0 0 (some 1) half_done
      unreadable

abbrev twice : List (Bool × Fate)
twice = (true, stops 3 none 0) ∷ (false, stops_clearing 1) ∷ []

write_archive_batch-retried_example :
    let w =
      write_archive_batch true reader 5
        (1 ∷ 2 ∷ [])
        sevens
        completes
        (attempts reader 5 (1 ∷ 2 ∷ []) sevens twice half_done) in
    (w.0 ≡ returned 5)
    × IsFinal reader 5 (1 ∷ 2 ∷ []) sevens w.1
    × ((other : ℕ) (media' metadata' : Bytes) (fate : Fate)
        → write_archive_batch true reader other media' metadata' fate w.1 ≡ (returned 5, w.1))
    × ((more : List (Bool × Fate))
        → IsFinal reader 5 (1 ∷ 2 ∷ []) sevens (attempts reader 5 (1 ∷ 2 ∷ []) sevens more w.1))
write_archive_batch-retried_example =
    write_archive_batch-retried reader 5 (1 ∷ 2 ∷ []) sevens
      (record { version = 3; is_mpegts = true; record_of = some 5 }) read_as_5 refl twice true
      half_done half_done-IsPaired unreadable
