-- ===== src/Outbox/Prepare.antt =====
-- storage.py: `prepare_archive`. The batch's segments are the bytes of each; its relative path, its
-- metadata in JSON and the nonce bases are arguments.
pub mod Served
mod Examples
use camvault.Prelude.{
  ℕ, ◌-◌, List, [], ◌∷◌, ◌++◌, Bool, true, false, Option, none, some, length, take, flatten,
}
use camvault.Crypto.Bytes.{Bytes}
use camvault.Crypto.Header.{Result, ok, err}
use camvault.Crypto.Layout.{encrypted_size}
use camvault.Crypto.Cipher.{Aead}
use camvault.Crypto.Stream.{Run, encrypt_archive}
use camvault.Read.Range.{Text}
use camvault.Archive.Names.Pattern.{enc_suffix}
use camvault.Outbox.Persist.{Prepared}

-- AES-GCM, the SHA-256 digest of a context, `encryption_chunk_kb` in bytes and, where the encryption
-- is enabled, the resolved key.
pub record Sealing : Type 0 where
  pub aead : Aead
  pub context_hash : Text → Bytes
  pub chunk_size : ℕ
  pub enabled : Bool
  pub key : Option Bytes

pub record ArchiveBatch : Type 0 where
  pub camera_id : Text
  pub relative_path : Text
  pub segments : List Bytes
  pub metadata : Bytes
  pub media_nonce : Bytes
  pub metadata_nonce : Bytes

-- ".json.enc", in place of the seven characters ".ts.enc" that an encrypted path ends in.
abbrev json_enc : Text
json_enc = b'.' ∷ b'j' ∷ b's' ∷ b'o' ∷ b'n' ∷ enc_suffix

unfoldable pub sidecar_path : Text → Text
sidecar_path path = take (length path - 7) path ++ json_enc

abbrev pub context_of : Text → Text → Text
context_of camera relative = camera ++ b'/' ∷ relative

-- What the chunks are together, and the size that was computed for them. The chunks are read later,
-- by the writer: an error of the stream is an exception there.
with_length : Run → Result (Unit {0}) → Result ℕ → Option (Bytes × ℕ)
with_length run (err e) size = none
with_length run (ok u) (err e) = none
with_length run (ok u) (ok size) = some (flatten run.out, size)

unfoldable pub encrypt_chunks : Sealing → Bytes → Bytes → Text → List Bytes → Option (Bytes × ℕ)
unfolding with_length
encrypt_chunks c key nonce context sources =
    let size = length (flatten sources) in
    let run = encrypt_archive c.aead key (c.context_hash context) size c.chunk_size nonce sources in
    with_length run run.outcome (encrypted_size size c.chunk_size)

sealed_archive : ArchiveBatch → Text → Option (Bytes × ℕ) → Option (Bytes × ℕ) → Option Prepared
sealed_archive b relative none sealed = none
sealed_archive b relative (some media) none = none
sealed_archive b relative (some (media, media_size)) (some (metadata, metadata_size)) =
    some (record {
      camera_id = b.camera_id;
      relative_path = relative;
      plaintext_size = length (flatten b.segments);
      media = media;
      metadata = metadata;
      media_size = media_size;
      metadata_size = metadata_size;
    })

plain_archive : ArchiveBatch → Prepared
plain_archive b = record {
  camera_id = b.camera_id;
  relative_path = b.relative_path;
  plaintext_size = length (flatten b.segments);
  media = flatten b.segments;
  metadata = b.metadata;
  media_size = length (flatten b.segments);
  metadata_size = length b.metadata;
}

encrypted_archive : Sealing → ArchiveBatch → Option Bytes → Option Prepared
unfolding encrypt_chunks sealed_archive sidecar_path
encrypted_archive c b none = none
encrypted_archive c b (some key) =
    let relative = b.relative_path ++ enc_suffix in
    let context = context_of b.camera_id relative in
    sealed_archive b relative (encrypt_chunks c key b.media_nonce context b.segments)
      (encrypt_chunks c key b.metadata_nonce (sidecar_path context) (b.metadata ∷ []))

unfoldable pub prepare_archive : Sealing → ArchiveBatch → Option Prepared
unfolding encrypted_archive plain_archive
prepare_archive c b = elim c.enabled [
  | true ↦ encrypted_archive c b c.key
  | false ↦ some (plain_archive b)
]
