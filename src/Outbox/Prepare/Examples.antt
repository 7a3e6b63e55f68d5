-- ===== src/Outbox/Prepare/Examples.antt =====
-- A batch of two segments, encrypted, written, and read back.
use camvault.Prelude.{ℕ, ◌≡◌, refl, List, [], ◌∷◌, ◌++◌, true, some, replicate, flatten}
use camvault.Crypto.Bytes.{Bytes, to_be}
use camvault.Crypto.Header.{ok, new_header, pack, chunk_count}
use camvault.Crypto.Layout.{encrypted_size}
use camvault.Crypto.Cipher.{encrypt_chunk}
use camvault.Crypto.Examples.{tagging}
use camvault.Read.Range.{strip, is_digit, resolve_byte_range}
use camvault.Read.Local.{Reply, local_read}
use camvault.Read.Local.Correct.{Serves}
use camvault.Crypto.Stream.{Run, encrypt_archive, encrypt_from, drain}
use camvault.Archive.Names.Pattern.{enc_suffix}
use camvault.Outbox.Disk.{find, apply_all}
use camvault.Outbox.Persist.{Prepared, Setup, Memory, plan, write, manifest_of, write_files, commit}
use camvault.Outbox.Persist.Laws.{written_folder}
use camvault.Outbox.Persist.Plans.{new_entry}
use camvault.Outbox.Prepare.{Sealing, ArchiveBatch, prepare_archive}
use camvault.Outbox.Prepare.Served.{persisted_batch-Serves}

abbrev sealing : Sealing
sealing = record {
  aead = tagging;
  context_hash = λ context. [];
  chunk_size = 65536;
  enabled = true;
  key = some [];
}

abbrev two_segments : ArchiveBatch
two_segments = record {
  camera_id = b'c' ∷ [];
  relative_path = b'.' ∷ b't' ∷ b's' ∷ [];
  segments = (1 ∷ 2 ∷ []) ∷ (3 ∷ []) ∷ [];
  metadata = 4 ∷ [];
  media_nonce = replicate 12 7;
  metadata_nonce = replicate 12 8;
}

abbrev run_of : ℕ → Bytes → List Bytes → Run
run_of size nonce sources = encrypt_archive tagging [] [] size 65536 nonce sources

abbrev two_prepared : Prepared
two_prepared = record {
  camera_id = b'c' ∷ [];
  relative_path = b'.' ∷ b't' ∷ b's' ∷ enc_suffix;
  plaintext_size = 3;
  media = flatten (run_of 3 (replicate 12 7) ((1 ∷ 2 ∷ []) ∷ (3 ∷ []) ∷ [])).out;
  metadata = flatten (run_of 1 (replicate 12 8) ((4 ∷ []) ∷ [])).out;
  media_size = 51;
  metadata_size = 49;
}

prepares : prepare_archive sealing two_segments ≡ some two_prepared
unfolding prepare_archive encrypt_archive new_header flatten encrypt_from drain chunk_count
    encrypted_size
prepares = refl

abbrev roomy : Setup
roomy = record {
  name_hash = λ name. [];
  data_hash = λ bytes. [];
  json_size = λ m. 300;
  max_bytes = 20000;
  min_free = 0;
}

abbrev no_entries : Memory
no_entries = record { entries = []; blocked = []; used = 0; orphan = 0 }

writes :
    plan roomy no_entries [] 20000 two_prepared
    ≡ write
        (new_entry roomy [] two_prepared)
        (write_files [] two_prepared ++ commit roomy [] two_prepared)
unfolding plan new_entry find encrypt_archive flatten new_header pack to_be encrypt_from drain
    encrypt_chunk
writes = refl

lies_there :
    find
      (new_entry roomy [] two_prepared).folder
      (apply_all (write_files [] two_prepared ++ commit roomy [] two_prepared) [])
    ≡ some (written_folder roomy two_prepared)
unfolding find apply_all new_entry write_files commit
lies_there = refl

middle :
    resolve_byte_range (some (b'b' ∷ b'y' ∷ b't' ∷ b'e' ∷ b's' ∷ b'=' ∷ b'1' ∷ b'-' ∷ [])) 3
    ≡ some (record { status = 206; start = 1; last = 2 })
unfolding resolve_byte_range strip is_digit
middle = refl

persisted_batch-Serves_example :
    (file : Bytes) × ((written_folder roomy two_prepared).media ≡ some file)
    × (reply : Reply) × (local_read tagging
          (some [])
          []
          file
          (b'.' ∷ b't' ∷ b's' ∷ enc_suffix)
          3
          (some (b'b' ∷ b'y' ∷ b't' ∷ b'e' ∷ b's' ∷ b'=' ∷ b'1' ∷ b'-' ∷ []))
        ≡ ok reply)
    × Serves (1 ∷ 2 ∷ 3 ∷ []) (record { status = 206; start = 1; last = 2 }) reply
unfolding new_entry flatten manifest_of
persisted_batch-Serves_example =
    persisted_batch-Serves sealing two_segments two_prepared [] roomy no_entries [] 20000 _ _ _ _ _
      refl refl prepares writes lies_there middle
