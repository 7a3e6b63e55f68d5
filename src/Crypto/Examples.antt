-- ===== src/Crypto/Examples.antt =====
-- A small archive: two bytes of nonce that differ, three bytes of plaintext in one chunk, and a
-- cipher that only appends a tag.
use camvault.Prelude.{
  ◌-◌, ◌≡◌, ◌≢◌, refl, ap, [], ◌∷◌, ◌++◌, some, arith, length, length-append, take, take_left,
  slice, flatten, replicate, All,
}
use camvault.Crypto.Bytes.{Bytes, to_be, IsByte}
use camvault.Crypto.Header.{Header, IsSound, ok, chunk_count, pack, parse_header}
use camvault.Crypto.Header.RoundTrip.{parse_header-pack, pack-parse_header}
use camvault.Crypto.Layout.{span_for_range, Span}
use camvault.Crypto.Layout.Bounds.{Covers, span_for_range-Covers}
use camvault.Crypto.Cipher.{Aead, chunk_nonce, decrypt_chunk}
use camvault.Crypto.Cipher.Nonces.{chunk_nonce-ne}
use camvault.Crypto.Stream.{encrypt_archive}
use camvault.Crypto.Stream.Sealed.{seal, encrypt_archive-eq, encrypt_archive_refuses}
use camvault.Crypto.Contents.{stored, decrypt_chunk-stored}

abbrev tag : Bytes
tag = replicate 16 0

abbrev pub tagging : Aead
tagging = record {
  encrypt = λ key nonce plaintext aad. plaintext ++ tag;
  decrypt = λ key nonce payload aad. some (take (length payload - 16) payload);
  length-encrypt = λ key nonce plaintext aad. length-append plaintext tag;
  decrypt-encrypt = λ key nonce plaintext aad. ap some (
      take_left (length (plaintext ++ tag) - 16) plaintext tag
        (omega (arith, length-append plaintext tag)));
}

abbrev pub three : Bytes
three = 7 ∷ 8 ∷ 9 ∷ []

abbrev pub small : Header
small = record { chunk_size = 65536; plaintext_size = 3; nonce_base = replicate 12 1 }

pub small-IsSound : IsSound small
small-IsSound = record {
  min_chunk = omega arith;
  max_chunk = omega arith;
  few_chunks = omega arith;
  nonce_size = refl;
}

-- Two chunks.
abbrev long : Header
long = record { chunk_size = 65536; plaintext_size = 65537; nonce_base = replicate 12 255 }

long-IsSound : IsSound long
long-IsSound = record {
  min_chunk = omega arith;
  max_chunk = omega arith;
  few_chunks = omega arith;
  nonce_size = refl;
}

long_chunks : chunk_count long ≡ 2
unfolding chunk_count
long_chunks = refl

small_chunks : chunk_count small ≡ 1
unfolding chunk_count
small_chunks = refl

parse_header-pack_example : parse_header (pack small) ≡ ok small
parse_header-pack_example = parse_header-pack small small-IsSound

All-pack : All IsByte (pack small)
unfolding pack to_be
All-pack = (
  omega arith,
  (
    omega arith,
    (
      omega arith,
      (
        omega arith,
        (
          omega arith,
          (
            omega arith,
            (
              omega arith,
              (
                omega arith,
                (
                  omega arith,
                  (
                    omega arith,
                    (
                      omega arith,
                      (
                        omega arith,
                        (
                          omega arith,
                          (
                            omega arith,
                            (
                              omega arith,
                              (
                                omega arith,
                                (
                                  omega arith,
                                  (
                                    omega arith,
                                    (
                                      omega arith,
                                      (
                                        omega arith,
                                        (
                                          omega arith,
                                          (
                                            omega arith,
                                            (
                                              omega arith,
                                              (
                                                omega arith,
                                                (
                                                  omega arith,
                                                  (
                                                    omega arith,
                                                    (
                                                      omega arith,
                                                      (
                                                        omega arith,
                                                        (
                                                          omega arith,
                                                          (
                                                            omega arith,
                                                            (omega arith, (omega arith, tt)),
                                                          ),
                                                        ),
                                                      ),
                                                    ),
                                                  ),
                                                ),
                                              ),
                                            ),
                                          ),
                                        ),
                                      ),
                                    ),
                                  ),
                                ),
                              ),
                            ),
                          ),
                        ),
                      ),
                    ),
                  ),
                ),
              ),
            ),
          ),
        ),
      ),
    ),
  ),
)

pack-parse_header_example : (pack small ≡ pack small) × IsSound small
pack-parse_header_example = pack-parse_header (pack small) small All-pack parse_header-pack_example

chunk_nonce-ne_example : chunk_nonce long 0 ≢ chunk_nonce long 1
chunk_nonce-ne_example =
    chunk_nonce-ne long 0 1 long-IsSound (omega (arith, long_chunks)) (omega (arith, long_chunks))
      (omega arith)

span_for_range-Covers_example :
    (r : Span) × (span_for_range long 10 65536 ≡ ok r) × Covers long 10 65536 r
span_for_range-Covers_example =
    span_for_range-Covers long 10 65536 (omega arith) (omega arith) (omega arith)

-- The sources split the plaintext where they like.
encrypt_archive-eq_example :
    encrypt_archive tagging three three 3 65536 (replicate 12 1) ((7 ∷ []) ∷ [] ∷ (8 ∷ 9 ∷ []) ∷ [])
    ≡ record {
      out = pack small ∷ seal tagging three three small (chunk_count small) 0 three;
      outcome = ok tt;
    }
unfolding flatten
encrypt_archive-eq_example =
    encrypt_archive-eq tagging three three small ((7 ∷ []) ∷ [] ∷ (8 ∷ 9 ∷ []) ∷ []) small-IsSound
      refl

encrypt_archive_refuses_example :
    (encrypt_archive tagging three three 3 65536 (replicate 12 1) ((7 ∷ []) ∷ [])).outcome ≢ ok tt
unfolding flatten
encrypt_archive_refuses_example =
    encrypt_archive_refuses tagging three three small ((7 ∷ []) ∷ []) small-IsSound (omega arith)

decrypt_chunk-stored_example :
    decrypt_chunk tagging three three small 0 (slice (stored tagging three three small three) 32 51)
    ≡ ok three
decrypt_chunk-stored_example =
    decrypt_chunk-stored tagging three three small three small-IsSound refl 0
      (omega (arith, small_chunks))
