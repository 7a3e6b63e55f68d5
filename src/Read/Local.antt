-- ===== src/Read/Local.antt =====
-- spool.py: `SpoolingStorageBackend._local_read`, a range of a recording that is still on disk.
-- The open file is the list of its bytes; reading past its end gives what is there.
pub mod Correct
use camvault.Prelude.{
  ℕ, zero, suc, ◌+◌, ◌-◌, ◌*◌, ◌/◌, List, [], ◌∷◌, ◌++◌, Bool, true, false, Option, none, some, min,
  length, take, drop, slice, ◌==◌, if◌then◌else◌,
}
use camvault.Crypto.Bytes.{Bytes}
use camvault.Crypto.Header.{Header, Result, ok, err, ◌>>=◌, parse_header, tag_bytes, header_bytes}
use camvault.Crypto.Layout.{plaintext_chunk_size, encrypted_chunk_offset}
use camvault.Crypto.Cipher.{Aead, decrypt_chunk}
use camvault.Read.Range.{Text, Selected, resolve_byte_range}
use camvault.Read.Pieces.{piece}
use camvault.Read.Body.{Body, done, failed, yield, yield_result, truncated, missing_key}

unfoldable pub ends_with_enc : Text → Bool
ends_with_enc [] = false
ends_with_enc (c ∷ []) = false
ends_with_enc (c ∷ d ∷ []) = false
ends_with_enc (c ∷ d ∷ e ∷ []) = false
ends_with_enc (c ∷ d ∷ e ∷ f ∷ []) =
    if c == b'.'
    then (if d == b'e' then (if e == b'n' then f == b'c' else false) else false)
    else false
ends_with_enc (c ∷ d ∷ e ∷ f ∷ g ∷ rest) = ends_with_enc (d ∷ e ∷ f ∷ g ∷ rest)

module _ (aead : Aead) (key digest : Bytes) (h : Header) (file : Bytes) (start last : ℕ) where
  read_chunk : ℕ → Result Bytes
  read_chunk index = do
    offset ← encrypted_chunk_offset h index
    size ← plaintext_chunk_size h index
    plain ← decrypt_chunk aead key digest h index (slice file offset (offset + (size + tag_bytes)))
    ok (piece start (last + 1) (index * h.chunk_size) plain)

  -- `for index in range(first, last + 1)`, by the number of rounds left.
  read_chunks : ℕ → ℕ → Body
  unfolding read_chunk
  read_chunks zero index = done
  read_chunks (suc n) index = yield_result (read_chunk index) (read_chunks n (index + 1))

abbrev pub block_bytes : ℕ
block_bytes = 128 * 1024

-- `while remaining`, on fuel: each round reads a block that is not empty or raises, so `remaining`
-- rounds are enough. `position` is where the stream stands.
read_blocks : ℕ → Bytes → ℕ → ℕ → Body
read_blocks zero file position remaining = done
read_blocks (suc fuel) file position remaining =
    let block = slice file position (position + min block_bytes remaining) in
    let rest = read_blocks fuel file (position + length block) (remaining - length block) in
    if remaining == 0
    then done
    else if length block == 0
    then failed truncated
    else yield (block ∷ []) rest

-- `content_range`: the range, if one is selected, and the size.
pub record Reply : Type 0 where
  pub status : ℕ
  pub content_length : ℕ
  pub content_range : Option (Option (ℕ × ℕ) × ℕ)
  pub body : Body

-- A missing key fails an assertion when the body is first asked for.
pub encrypted_body : Aead → Bytes → Bytes → Header → ℕ → ℕ → Option Bytes → Body
unfolding read_chunks
encrypted_body aead digest file h start last none = failed missing_key
encrypted_body aead digest file h start last (some k) =
    read_chunks aead k digest h file start last (last / h.chunk_size + 1 - start / h.chunk_size)
      (start / h.chunk_size)

module _ (aead : Aead) (key : Option Bytes) (digest file : Bytes) where
  body_of : Option Header → ℕ → ℕ → Body
  unfolding encrypted_body read_blocks
  body_of none start last = read_blocks (last + 1 - start) file start (last + 1 - start)
  body_of (some h) start last = encrypted_body aead digest file h start last key

  reply_for : ℕ → Option Header → Option Selected → Reply
  unfolding body_of
  reply_for size header none = record {
    status = 416;
    content_length = 0;
    content_range = some (none, size);
    body = done;
  }
  reply_for size header (some r) = record {
    status = r.status;
    content_length = r.last + 1 - r.start;
    content_range = if r.status == 206 then some (some (r.start, r.last), size) else none;
    body = body_of header r.start r.last;
  }

  -- An encrypted file states its own size; the entry's is used for a plain one.
  unfoldable pub local_read : Text → ℕ → Option Text → Result Reply
  unfolding reply_for ends_with_enc
  local_read relative_path plaintext_size range =
      if ends_with_enc relative_path
      then (do
        h ← parse_header (take header_bytes file)
        ok (reply_for h.plaintext_size (some h) (resolve_byte_range range h.plaintext_size)))
      else ok (reply_for plaintext_size none (resolve_byte_range range plaintext_size))
