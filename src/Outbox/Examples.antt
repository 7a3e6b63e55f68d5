-- ===== src/Outbox/Examples.antt =====
-- The outbox with one camera, hashes of zeros, and room for 20000 bytes.
use camvault.Prelude.{
  ℕ, ◌≡◌, refl, List, [], ◌∷◌, ◌++◌, true, false, none, some, replicate, arith, All,
}
use camvault.Read.Range.{Text, is_digit}
use camvault.Archive.Names.{file_name}
use camvault.Archive.Names.Pattern.{no_stream, is_hex}
use camvault.Outbox.Paths.{safe, refused, safe_recording_relative}
use camvault.Outbox.Disk.{Disk, find, apply_all}
use camvault.Outbox.Entry.{is_entry_id, is_camera_id, load_entry}
use camvault.Outbox.Persist.{
  Setup, Prepared, Memory, write, plan, acts_of, manifest_of, write_files, commit, register,
  pending_name,
}
use camvault.Outbox.Persist.Plans.{new_entry}
use camvault.Outbox.Persist.Effects.{Honest}
use camvault.Outbox.Replay.{replay}
use camvault.Outbox.Replay.Drain.{Drained, replay-drains}
use camvault.Outbox.Open.{open_outbox}
use camvault.Outbox.Open.Complete.{Reopened, open_outbox-Reopened}
use camvault.Outbox.World.{
  World, start, Reachable, begin, next, opened, written, wrote, accept, Recording,
}
use camvault.Outbox.World.Quiet.{Ready, Digests}
use camvault.Outbox.World.Sound.{RecordingOf, batch_manifest}
use camvault.Outbox.World.Durable.{Safe, durable, Reachable-Sound, persisted_recording}

abbrev zeros : Text
zeros = replicate 64 b'0'

abbrev setup : Setup
setup = record {
  name_hash = λ name. zeros;
  data_hash = λ bytes. zeros;
  json_size = λ m. 300;
  max_bytes = 20000;
  min_free = 1000;
}

-- 20240102T030405+0000
abbrev stamp : Text
stamp =
    b'2' ∷ b'0' ∷ b'2' ∷ b'4' ∷ b'0' ∷ b'1' ∷ b'0' ∷ b'2' ∷ b'T' ∷ b'0' ∷ b'3' ∷ b'0' ∷ b'4' ∷ b'0'
    ∷ b'5' ∷ b'+' ∷ b'0' ∷ b'0' ∷ b'0' ∷ b'0' ∷ []

-- 2024/01/02/03/
abbrev hour : Text
hour =
    b'2' ∷ b'0' ∷ b'2' ∷ b'4' ∷ b'/' ∷ b'0' ∷ b'1' ∷ b'/' ∷ b'0' ∷ b'2' ∷ b'/' ∷ b'0' ∷ b'3' ∷ b'/'
    ∷ []

abbrev name_of : ℕ → Text
name_of sequence = file_name stamp sequence 10000 no_stream none (replicate 12 b'a') false

abbrev path_of : ℕ → Text
path_of sequence = hour ++ name_of sequence

abbrev parts_of : ℕ → List Text
parts_of sequence =
    (b'2' ∷ b'0' ∷ b'2' ∷ b'4' ∷ [])
    ∷ (b'0' ∷ b'1' ∷ [])
    ∷ (b'0' ∷ b'2' ∷ [])
    ∷ (b'0' ∷ b'3' ∷ [])
    ∷ name_of sequence
    ∷ []

path_is_safe : safe_recording_relative (path_of 1) ≡ safe (parts_of 1)
unfolding safe_recording_relative file_name
path_is_safe = refl

-- A path with a step up, and one that is not deep enough.
up_is_refused : safe_recording_relative (b'.' ∷ b'.' ∷ b'/' ∷ path_of 1) ≡ refused
unfolding safe_recording_relative file_name
up_is_refused = refl

shallow_is_refused : safe_recording_relative (name_of 1) ≡ refused
unfolding safe_recording_relative file_name
shallow_is_refused = refl

abbrev camera : Text
camera = b'c' ∷ b'a' ∷ b'm' ∷ []

abbrev batch : Prepared
batch = record {
  camera_id = camera;
  relative_path = path_of 1;
  plaintext_size = 3;
  media = 1 ∷ 2 ∷ 3 ∷ [];
  metadata = 4 ∷ 5 ∷ [];
  media_size = 3;
  metadata_size = 2;
}

batch_is_Ready : Ready setup batch
unfolding is_camera_id is_digit manifest_of
batch_is_Ready = record {
  camera = refl;
  parts = parts_of 1;
  path = path_is_safe;
  media = omega arith;
  metadata = omega arith;
  plaintext = omega arith;
  json = omega arith;
}

zeros_are-Digests : Digests setup
unfolding is_entry_id is_hex
zeros_are-Digests bytes = refl

abbrev empty_memory : Memory
empty_memory = record { entries = []; blocked = []; used = 0; orphan = 0 }

nothing_to_open : open_outbox setup [] ≡ some ([], empty_memory)
unfolding open_outbox
nothing_to_open = refl

planned :
    plan setup empty_memory [] 50000 batch
    ≡ write (new_entry setup zeros batch) (write_files zeros batch ++ commit setup zeros batch)
unfolding plan new_entry find
planned = refl

-- With less disk, or in a fuller outbox, nothing is written.
no_space : acts_of (plan setup empty_memory [] 17388 batch) ≡ []
unfolding plan find
no_space = refl

no_room : acts_of (plan setup (record empty_memory { used = 3612 }) [] 50000 batch) ≡ []
unfolding plan find
no_room = refl

abbrev running : World
running = record start { disk = []; memory = some empty_memory }

abbrev after_write : World
after_write =
    accept setup (wrote batch) true (new_entry setup zeros batch)
      (apply_all (write_files zeros batch ++ commit setup zeros batch) []) empty_memory running

after_write-Reachable : Reachable setup after_write
after_write-Reachable =
    next (next begin (opened refl nothing_to_open)) (written 50000 batch true refl planned)

after_write_given : All (Ready setup) after_write.given
unfolding accept
after_write_given = (batch_is_Ready, tt)

durable_example :
    All
      (λ a. (r : Recording) × RecordingOf setup a r × Safe setup after_write r)
      after_write.acknowledged
durable_example =
    durable setup after_write zeros_are-Digests after_write-Reachable after_write_given

persisted_recording_example :
    let stored = batch_manifest setup batch in
    let e = new_entry setup zeros batch in
    (find (pending_name zeros) (apply_all (write_files zeros batch ++ commit setup zeros batch) [])
      ≡ some (record {
        media = some batch.media;
        metadata = some batch.metadata;
        manifest = some (record { size = 300; content = some stored });
      }))
    × (e.folder ≡ pending_name zeros)
    × (e.manifest ≡ stored)
persisted_recording_example = persisted_recording setup empty_memory [] 50000 batch _ _ planned

-- A start after the process died in the middle of its second write: the first entry is read, and the
-- incomplete one is left where it is.
abbrev disk : Disk
disk = apply_all (write_files zeros batch ++ commit setup zeros batch) []

disk_is_Honest : Honest setup disk
unfolding accept
disk_is_Honest =
    (Reachable-Sound setup after_write zeros_are-Digests after_write-Reachable
      after_write_given).honest

abbrev reopened : Memory
reopened = register setup (new_entry setup zeros batch) empty_memory

reopens : open_outbox setup disk ≡ some (disk, reopened)
unfolding open_outbox apply_all new_entry register find write_files commit load_entry file_name
    is_digit safe_recording_relative
reopens = refl

open_outbox-Reopened_example : Reopened setup disk disk reopened.entries
open_outbox-Reopened_example = open_outbox-Reopened setup disk disk reopened disk_is_Honest reopens

replay-drains_example : Drained setup reopened (replay setup 1 reopened)
unfolding register
replay-drains_example = replay-drains setup 1 reopened (refl, tt) (omega arith)
