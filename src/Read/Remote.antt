-- ===== src/Read/Remote.antt =====
-- storage.py: `WebDAVStorageBackend._decrypt_remote_range`. The HTTP body is the list of the chunks
-- that the client library hands over, in whatever sizes.
pub mod Sources
pub mod Correct
pub mod Open
use camvault.Prelude.{
  ℕ, zero, suc, ◌+◌, ◌-◌, ◌*◌, List, [], ◌∷◌, ◌++◌, Bool, ◌&&◌, ◌||◌, not, Option, none, some, min,
  length, take, drop, slice, ltb, leb, ◌==◌, if◌then◌else◌,
}
use camvault.Crypto.Bytes.{Bytes}
use camvault.Crypto.Header.{Header, Result, ok, err, tag_bytes}
use camvault.Crypto.Layout.{plaintext_chunk_size}
use camvault.Crypto.Cipher.{Aead, decrypt_chunk}
use camvault.Read.Pieces.{piece}
use camvault.Read.Body.{ReadError, Body, done, failed, yield, decryption, backend, truncated}

-- The generator between two chunks of the response.
pub record Progress : Type 0 where
  pub out : List Bytes
  pub pending : Bytes
  pub index : ℕ
  pub failure : Option ReadError

module _ (aead : Aead) (key digest : Bytes) (h : Header)
    (last_chunk plain_start plain_end : ℕ) where
  -- Yield what the range takes from chunk `index`, unless that is nothing.
  with_plain : Progress → Bytes → ℕ → Result Bytes → Progress
  with_plain rest pending index (err e) = record {
    out = [];
    pending = pending;
    index = index;
    failure = some (backend e);
  }
  with_plain rest pending index (ok plain) =
      let offset = index * h.chunk_size in
      if ltb (plain_start - offset) (min (length plain) (plain_end + 1 - offset))
      then record rest { out = piece plain_start (plain_end + 1) offset plain ∷ rest.out }
      else rest

  with_size : (Bytes → ℕ → Progress) → Bytes → ℕ → Result ℕ → Progress
  unfolding with_plain
  with_size next pending index (err e) = record {
    out = [];
    pending = pending;
    index = index;
    failure = some (decryption e);
  }
  with_size next pending index (ok size) =
      let cipher_size = size + tag_bytes in
      let rest = next (drop cipher_size pending) (index + 1) in
      if ltb (length pending) cipher_size
      then record { out = []; pending = pending; index = index; failure = none }
      else with_plain rest (drop cipher_size pending) index
          (decrypt_chunk aead key digest h index (take cipher_size pending))

  -- `while chunk_index <= last_chunk`, by the number of chunks left.
  decrypt_pending : ℕ → Bytes → ℕ → Progress
  unfolding with_size
  decrypt_pending zero pending index = record {
    out = [];
    pending = pending;
    index = index;
    failure = none;
  }
  decrypt_pending (suc n) pending index =
      with_size (decrypt_pending n) pending index (plaintext_chunk_size h index)

  -- The test behind the loop.
  ending : ℕ → ℕ → Bytes → ℕ → Body
  ending skip remaining pending index =
      if not (skip == 0)
        || not (remaining == 0)
        || not (length pending == 0)
        || leb index last_chunk
      then failed truncated
      else done

  -- After one chunk of the response: an exception, the `break`, or the next chunk.
  after_source : Progress → ℕ → ℕ → Body → Option ReadError → Body
  unfolding ending
  after_source p skip remaining next (some e) = record { out = p.out; failure = some e }
  after_source p skip remaining next none =
      yield p.out (if remaining == 0 then ending skip remaining p.pending p.index else next)

  pub decrypt_sources : List Bytes → ℕ → Bytes → ℕ → ℕ → Body
  unfolding after_source
  decrypt_sources [] skip pending remaining index = ending skip remaining pending index
  decrypt_sources (source ∷ sources) skip pending remaining index =
      let skipped = min skip (length source) in
      let rest = drop skipped source in
      let accepted = take remaining rest in
      let p = decrypt_pending (last_chunk + 1 - index) (pending ++ accepted) index in
      let left = remaining - length accepted in
      let skip_more = decrypt_sources sources (skip - skipped) pending remaining index in
      let next = decrypt_sources sources (skip - skipped) p.pending left p.index in
      if not (skip == 0) && length rest == 0
      then skip_more
      else after_source p (skip - skipped) left next p.failure

-- The whole generator: `stored_bytes` are wanted behind the first `source_skip` bytes.
unfoldable pub decrypt_remote_range :
    Aead → Bytes → Bytes → Header → ℕ → ℕ → ℕ → ℕ → ℕ → ℕ → List Bytes → Body
unfolding decrypt_sources decrypt_pending
decrypt_remote_range aead key digest h first last stored_bytes source_skip start stop sources =
    decrypt_sources aead key digest h last start stop sources source_skip [] stored_bytes first
