-- ===== src/Lib.antt =====
-- CamVault records network cameras: FFmpeg uploads short media segments, a live buffer keeps the
-- newest of them, an archive manager joins them into batches, and a storage backend writes each batch
-- as one recording, on WebDAV encrypted in chunks. Players read recordings back by byte ranges, from
-- the local outbox while the upload is pending and from the remote server later. A retention pass
-- deletes the oldest recordings.
--
-- Files and code (paths under src/camvault):
--   Prelude            Boolean tests, lists and slices over the native numbers.
--   Crypto             crypto.py, all of it. Header: ArchiveEncryptionHeader, new_encryption_header,
--                      parse_encryption_header. Layout: encrypted_size, plaintext_chunk_size,
--                      encrypted_chunk_offset, encrypted_span_for_plaintext_range. Cipher: _chunk_nonce,
--                      _chunk_aad, decrypt_archive_chunk. Stream: encrypt_archive_chunks. Contents: the
--                      bytes of a stored object.
--   Live               buffer.py: LiveSegment and LiveBuffer's construction, add_segment,
--                      _remember_name, _evict, get.
--   Archive            archive.py: ArchiveBatch, ArchiveAccumulator (Accumulator), ArchiveManager
--                      (Manager) as a step relation of one camera's ingest task and worker,
--                      parse_archive_filename and the file name of archive_relative_path (Names),
--                      write_archive_batch (Local).
--   Outbox             spool.py: SpoolingStorageBackend. Disk: the directory and the calls that change
--                      it. Paths: storage.py _safe_recording_relative. Entry: SpoolEntry, _load_entry.
--                      Prepare: storage.py prepare_archive. Persist: _persist, _register. Replay: the
--                      choice of _replay, _remove_committed. Open: the scan of _open. Listing:
--                      list_records with storage.py _filter_records. World: the operations as steps,
--                      with errors and deaths of the process after any act.
--   Read               storage.py _resolve_byte_range (Range), spool.py _local_read (Local), storage.py
--                      _decrypt_remote_range (Remote), _open_encrypted_recording and
--                      _open_remote_response (Remote.Open). Pieces: the part of a chunk that a range takes.
--   Webdav             storage.py: WebDAVStorageBackend. Server: what HTTP requests do and promise. Acts:
--                      coroutines as state with exceptions, and postconditions. Body: the body of
--                      _put, the loop of _object_matches. Client: _request, start,
--                      _ensure_collection_parts, _put, _move, _object_matches, _delete,
--                      _best_effort_delete, _invalidate_camera. Paths: _archive_sidecar_path,
--                      _partial_name. Upload: write_prepared.
--   Retention          storage.py WebDAVStorageBackend.retention: delete_record and the loop of the
--                      passes by size (Sweep), and the passes by age, size, free space and the
--                      emergency reclaim (Remote); retention.py apply_retention (Local).
--   Service            service.py: the browser sessions of CamVaultService (Sessions). config_store.py:
--                      ConfigStore's read, validate, write and _atomic_replace (Config).
--   Logs               logging_setup.py: RecentLogHandler (Recent).
--
-- State is passed explicitly, errors are values. Bytes are lists of numbers and a file is the list
-- of its bytes. A generator is the list of what it yields with the error that ends it. Python's
-- integers are numbers where the source holds sizes, counts and indices, which are not negative; the
-- fields of the header keep their widths, and the nonce its wrap-around at 2 ^ 96. Floats are a
-- parameter without laws (Archive.Accumulator.Floats). AES-GCM is a parameter with its two documented
-- laws (Crypto.Cipher.Aead); a context's SHA-256 digest is an argument. Times and random tokens are
-- arguments.
--
-- Fuel: the loop that cuts whole chunks off the pending bytes runs on the number of those bytes, since
-- a chunk is not empty; the loop that reads blocks of a plain file runs on the number of bytes that
-- remain, since an empty block ends it; the removal of the oldest browser session runs on the number
-- of sessions. Loops over an index run on the number of rounds left. The outbox's replay runs on a
-- number of uploads, for which that of the entries is enough; the digits of a number are counted on
-- the number itself, which is at least their count less one.
--
-- Disk: an operation on the outbox's directory is a list of acts, each one call, and a call that writes
-- a file ends with an fsync. An error or the death of the process leaves the acts before it, and of the
-- file being written a first part. SHA-256, the size of a manifest in JSON and the limits are the
-- fields of Outbox.Persist.Setup; that a digest is 64 hexadecimal digits is a hypothesis. The outbox's
-- operations run under its lock, so a step is one operation; what the remote has confirmed is a list.
--
-- Concurrency: the archive manager keeps a lock, a queue of one batch, a byte budget and a worker for
-- each camera. Cameras share the closing flag and the memory sample behind the adaptive targets, which
-- are inputs of the steps, so one camera is modelled. A step is what a task runs between two awaits
-- that may block.
--
-- WebDAV server: its state, its answer to each request and what it promises of the objects are the
-- fields of Webdav.Server.Server, with the HTTP client library inside; SHA-256 is the field digest of
-- Webdav.Server.Backend. One transaction runs at a time, and a cancelled task is not modelled.
--
-- Local files: an attempt of write_archive_batch, and a write of the configuration, is a list of calls,
-- of which any may fail or be the last before the process ends (Archive.Local.Fate,
-- Service.Config.Fault and write_stages). What was written before is kept. The verdict of the
-- configuration's parser and the readers of JSON are arguments.
--
-- Not modelled: HTTP, XML, processes, TOML and the file system as such; playlists, since their
-- durations are floats read from text; shutdown by abort and the timing of retries; the outbox's lock
-- and the fingerprint of its target; the web application, the supervisor and the camera protocols.
pub mod Prelude
pub mod Archive
pub mod Crypto
pub mod Live
pub mod Logs
pub mod Outbox
pub mod Read
pub mod Retention
pub mod Service
pub mod Webdav
