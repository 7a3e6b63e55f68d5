-- ===== src/Crypto/Cipher.antt =====
-- crypto.py: the nonce and the associated data of a chunk, and its decryption. AES-GCM, SHA-256 and
-- UTF-8 encoding are not code of this repository: `Aead` and the context's digest are parameters.
pub mod Nonces
use camvault.Prelude.{
  ℕ, ◌+◌, ◌%◌, ◌^◌, ◌≡◌, List, [], ◌∷◌, ◌++◌, Option, none, some, not, length, ◌==◌, if◌then◌else◌,
}
use camvault.Crypto.Bytes.{Bytes, to_be, from_be}
use camvault.Crypto.Header.{
  Header, Result, ok, err, ◌>>=◌, bad_payload_size, authentication_failed, pack, tag_bytes,
}
use camvault.Crypto.Layout.{plaintext_chunk_size}

-- `AESGCM(key)`: `decrypt` gives `none` for `InvalidTag`. Its laws are the documented ones: the tag
-- is 16 bytes behind the ciphertext, and what was encrypted decrypts under the same key, nonce and
-- associated data.
pub record Aead : Type 0 where
  pub encrypt : Bytes → Bytes → Bytes → Bytes → Bytes
  pub decrypt : Bytes → Bytes → Bytes → Bytes → Option Bytes
  pub length-encrypt :
      (key nonce plaintext aad : Bytes)
      → length (encrypt key nonce plaintext aad) ≡ length plaintext + tag_bytes
  pub decrypt-encrypt :
      (key nonce plaintext aad : Bytes)
      → decrypt key nonce (encrypt key nonce plaintext aad) aad ≡ some plaintext

-- b"CamVault archive encryption v1\0"
abbrev pub aad_domain : Bytes
aad_domain =
    67 ∷ 97 ∷ 109 ∷ 86 ∷ 97 ∷ 117 ∷ 108 ∷ 116 ∷ 32 ∷ 97 ∷ 114 ∷ 99 ∷ 104 ∷ 105 ∷ 118 ∷ 101 ∷ 32
    ∷ 101 ∷ 110 ∷ 99 ∷ 114 ∷ 121 ∷ 112 ∷ 116 ∷ 105 ∷ 111 ∷ 110 ∷ 32 ∷ 118 ∷ 49 ∷ 0 ∷ []

unfoldable pub chunk_nonce : Header → ℕ → Bytes
chunk_nonce h index = to_be 12 ((from_be h.nonce_base + index) % 2 ^ 96)

-- `digest` is the SHA-256 of the context's UTF-8 bytes.
unfoldable pub chunk_aad : Header → Bytes → ℕ → ℕ → Bytes
chunk_aad h digest index chunk_size =
    aad_domain ++ (pack h ++ (digest ++ (to_be 4 index ++ to_be 4 chunk_size)))

abbrev authenticated : Option Bytes → Result Bytes
authenticated none = err authentication_failed
authenticated (some plaintext) = ok plaintext

module _ (aead : Aead) (key digest : Bytes) where
  unfoldable pub encrypt_chunk : Header → ℕ → Bytes → Bytes
  encrypt_chunk h index plaintext =
      aead.encrypt key (chunk_nonce h index) plaintext (chunk_aad h digest index (length plaintext))

  unfoldable pub decrypt_chunk : Header → ℕ → Bytes → Result Bytes
  decrypt_chunk h index payload = do
    size ← plaintext_chunk_size h index
    if not (length payload == size + tag_bytes)
        then err bad_payload_size
        else authenticated
            (aead.decrypt key (chunk_nonce h index) payload (chunk_aad h digest index size))
