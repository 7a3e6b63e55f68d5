-- ===== src/Crypto/Cipher/Nonces.antt =====
-- A nonce is never used twice within an archive, and a chunk under its own index opens.
use camvault.Prelude.{
  ℕ, ◌+◌, ◌-◌, ◌*◌, ◌%◌, ◌^◌, ◌<◌, ◌≡◌, ◌≢◌, sym, ap, ◌∙◌, min, arith, length, lt→leb,
}
use camvault.Crypto.Bytes.{Bytes, from_be, from_be-to_be}
use camvault.Crypto.Header.{
  Header, ok, err, IsSound, chunk_count, max_chunks, tag_bytes, bad_payload_size,
}
use camvault.Crypto.Layout.{plaintext_chunk_size}
use camvault.Crypto.Cipher.{Aead, chunk_nonce, chunk_aad, encrypt_chunk, decrypt_chunk}

-- A sound header counts fewer than 2 ^ 32 chunks.
pub chunk_count-lt-max : (h : Header) → IsSound h → chunk_count h < max_chunks
unfolding chunk_count
chunk_count-lt-max h s = ground arith

-- Two indices below the count of a sound header's chunks have different nonces.
pub chunk_nonce-ne :
    (h : Header) (i j : ℕ)
    → IsSound h
    → i < chunk_count h
    → j < chunk_count h
    → i ≢ j
    → chunk_nonce h i ≢ chunk_nonce h j
unfolding chunk_nonce
chunk_nonce-ne h i j s hi hj ne e =
    let few : chunk_count h < 2 ^ 32 = chunk_count-lt-max h s in
    let b : ℕ = from_be h.nonce_base in
    let v : (b + i) % 2 ^ 96 ≡ (b + j) % 2 ^ 96 =
      sym (from_be-to_be 12 ((b + i) % 2 ^ 96) (omega arith))
      ∙ ap from_be e
      ∙ from_be-to_be 12 ((b + j) % 2 ^ 96) (omega arith) in
    ne (omega arith)

pub plaintext_chunk_size-eq :
    (h : Header) (i : ℕ)
    → i < chunk_count h
    → plaintext_chunk_size h i ≡ ok (min h.chunk_size (h.plaintext_size - i * h.chunk_size))
unfolding plaintext_chunk_size
plaintext_chunk_size-eq h i k = rw (lt→leb (chunk_count h) i k)

module _ (aead : Aead) (key digest : Bytes) (h : Header) (i : ℕ) (k : i < chunk_count h) where
  -- A chunk of the expected size, encrypted under its index, decrypts to itself.
  pub decrypt-encrypt_chunk :
      (plaintext : Bytes)
      → length plaintext ≡ min h.chunk_size (h.plaintext_size - i * h.chunk_size)
      → decrypt_chunk aead key digest h i (encrypt_chunk aead key digest h i plaintext)
        ≡ ok plaintext
  unfolding decrypt_chunk encrypt_chunk
  decrypt-encrypt_chunk plaintext e =
      rw (plaintext_chunk_size-eq h i k, ← e)
        (ground (
          arith,
          aead.length-encrypt key (chunk_nonce h i) plaintext
              (chunk_aad h digest i (length plaintext)),
          aead.decrypt-encrypt key (chunk_nonce h i) plaintext
              (chunk_aad h digest i (length plaintext)),
        ))

  -- For an index in range, a payload of any length but the chunk's and a tag is refused before the cipher sees it.
  pub decrypt_chunk_bad_size :
      (payload : Bytes)
      → length payload ≢ min h.chunk_size (h.plaintext_size - i * h.chunk_size) + tag_bytes
      → decrypt_chunk aead key digest h i payload ≡ err bad_payload_size
  unfolding decrypt_chunk
  decrypt_chunk_bad_size payload ne = rw (plaintext_chunk_size-eq h i k) (ground arith)
