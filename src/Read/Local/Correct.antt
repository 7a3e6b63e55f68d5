-- ===== src/Read/Local/Correct.antt =====
-- A range read from the local copy is that range of the plaintext.
use camvault.Prelude.{
  ℕ, zero, suc, ◌+◌, ◌-◌, ◌*◌, ◌/◌, ◌≤◌, ◌<◌, ◌≡◌, refl, sym, ap, ap₂, ◌∙◌, ◌++◌, flatten, true,
  false, Option, none, some, min, arith, length, take, slice, slice-append, slice_empty,
  length-slice, ◌==◌, lt→leb, take_left, inl, inr, Bool-cases,
}
use camvault.Crypto.Bytes.{Bytes}
use camvault.Crypto.Header.{
  Header, ok, pack, parse_header, IsSound, chunk_count, tag_bytes, header_bytes,
}
use camvault.Crypto.Header.RoundTrip.{parse_header-pack, length-pack}
use camvault.Crypto.Layout.{encrypted_chunk_offset}
use camvault.Crypto.Layout.Bounds.{chunk_of, chunk_of-lt-count}
use camvault.Crypto.Cipher.{Aead}
use camvault.Crypto.Cipher.Nonces.{plaintext_chunk_size-eq}
use camvault.Crypto.Contents.{chunk, stored, decrypt_chunk-stored}
use camvault.Read.Range.{Text, Selected, resolve_byte_range}
use camvault.Read.Range.Resolved.{InObject, resolve_byte_range-InObject}
use camvault.Read.Pieces.{piece, pieces, pieces-eq-slice}
use camvault.Read.Body.{Body, done}
use camvault.Read.Local.{
  read_chunk, read_chunks, read_blocks, block_bytes, encrypted_body, body_of, reply_for, local_read,
  Reply, ends_with_enc,
}

pub encrypted_chunk_offset-eq :
    (h : Header) (i : ℕ)
    → i < chunk_count h
    → encrypted_chunk_offset h i ≡ ok (header_bytes + i * (h.chunk_size + tag_bytes))
unfolding encrypted_chunk_offset
encrypted_chunk_offset-eq h i k = rw (lt→leb (chunk_count h) i k)

module _ (aead : Aead) (key digest : Bytes) (h : Header) (plaintext : Bytes) (s : IsSound h)
    (total : length plaintext ≡ h.plaintext_size) (start last : ℕ) where
  abbrev file : Bytes
  file = stored aead key digest h plaintext

  read_chunk_lem :
      (i : ℕ)
      → i < chunk_count h
      → read_chunk aead key digest h file start last i
        ≡ ok (piece start (last + 1) (i * h.chunk_size) (chunk h plaintext i))
  unfolding read_chunk
  read_chunk_lem i k = rw (
    encrypted_chunk_offset-eq h i k,
    plaintext_chunk_size-eq h i k,
    decrypt_chunk-stored aead key digest h plaintext s total i k,
  )

  read_chunks_lem :
      (n i : ℕ)
      → i + n ≤ chunk_count h
      → read_chunks aead key digest h file start last n i
        ≡ record { out = pieces h.chunk_size plaintext start (last + 1) n i; failure = none }
  unfolding read_chunks pieces
  read_chunks_lem zero i k = refl
  read_chunks_lem (suc n) i k =
      rw (read_chunk_lem i (omega arith), read_chunks_lem n (i + 1) (omega arith))

  -- The body of a range inside an encrypted archive: it ends well, with the bytes of the range.
  pub encrypted_body-lem :
      start ≤ last
      → last < h.plaintext_size
      → ((encrypted_body aead digest file h start last (some key)).failure ≡ none)
        × (flatten (encrypted_body aead digest file h start last (some key)).out
            ≡ slice plaintext start (last + 1))
  unfolding encrypted_body
  encrypted_body-lem order inside =
      let c : ℕ = h.chunk_size in
      let sized : 1 ≤ c = omega (arith, s.min_chunk) in
      let (a, b) = chunk_of start c sized in
      let (d, e) = chunk_of last c sized in
      let fits : last / c < chunk_count h = chunk_of-lt-count h last sized inside in
      let le : start / c ≤ last / c = grind arith in
      let r : read_chunks aead key digest h file start last (last / c + 1 - start / c) (start / c)
          ≡ _ =
        read_chunks_lem (last / c + 1 - start / c) (start / c) (omega arith) in
      (
        ap (λ (t : Body). t.failure) r,
        ap (λ (t : Body). flatten t.out) r
            ∙ pieces-eq-slice c plaintext start (last + 1) (omega arith) (omega arith) (start / c)
                (last / c) a b (omega arith) (omega arith) le,
      )

-- What a reply to a range of a plaintext holds.
pub record Serves (plaintext : Bytes) (r : Selected) (reply : Reply) : Type 0 where
  pub status : reply.status ≡ r.status
  pub complete : reply.body.failure ≡ none
  pub bytes : flatten reply.body.out ≡ slice plaintext r.start (r.last + 1)
  pub declared : reply.content_length ≡ length (flatten reply.body.out)

module _ (aead : Aead) (key digest : Bytes) (h : Header) (plaintext : Bytes) (s : IsSound h)
    (total : length plaintext ≡ h.plaintext_size) where
  pub parse-stored : parse_header (take header_bytes (stored aead key digest h plaintext)) ≡ ok h
  unfolding stored flatten
  parse-stored =
      ap parse_header (take_left header_bytes (pack h) _ (length-pack h s)) ∙ parse_header-pack h s

  -- With the key, and for a sound header and a plaintext of its declared length, every satisfiable
  -- range of an encrypted archive in the outbox is served with its plaintext: the status is the
  -- selected one, the body ends without an error, and the declared length is that of the body.
  pub local_read_encrypted :
      (path : Text) (size : ℕ) (range : Option Text) (r : Selected)
      → ends_with_enc path ≡ true
      → resolve_byte_range range h.plaintext_size ≡ some r
      → (reply : Reply) × (local_read aead
            (some key)
            digest
            (stored aead key digest h plaintext)
            path
            size
            range
          ≡ ok reply)
        × Serves plaintext r reply
  unfolding local_read
  local_read_encrypted path size range r enc e =
      let v : InObject h.plaintext_size r =
        resolve_byte_range-InObject range h.plaintext_size r e in
      let (good, same) =
        encrypted_body-lem aead key digest h plaintext s total r.start r.last v.ordered v.inside in
      (
        reply_for aead (some key) digest (stored aead key digest h plaintext) h.plaintext_size
            (some h) (some r),
        rw (enc, parse-stored, e),
        record {
          status = refl;
          complete = good;
          bytes = same;
          declared = sym (
              ap length same
              ∙ length-slice plaintext r.start (r.last + 1) (omega (arith, v.inside)));
        },
      )

-- A plain file is read to the end of the range, block by block.
read_blocks_lem :
    (fuel : ℕ) (file : Bytes) (position remaining : ℕ)
    → remaining ≤ fuel
    → position + remaining ≤ length file
    → ((read_blocks fuel file position remaining).failure ≡ none)
      × (flatten (read_blocks fuel file position remaining).out
          ≡ slice file position (position + remaining))
unfolding read_blocks flatten
read_blocks_lem zero file position remaining enough fits =
    (refl, sym (slice_empty file position (position + remaining) (omega arith)))
read_blocks_lem (suc fuel) file position remaining enough fits =
    elim (Bool-cases (remaining == 0)) [
      | inl empty ↦
          rw empty (refl, sym (slice_empty file position (position + remaining) (ground arith)))
      | inr more ↦
          let m : ℕ = min block_bytes remaining in
          let block : Bytes = slice file position (position + m) in
          let pos : 0 < remaining = ground arith in
          let len : length block ≡ m =
            length-slice file position (position + m) (omega arith) ∙ omega arith in
          let full : (length block == 0) ≡ false = ground arith in
          let (good, same) =
            read_blocks_lem fuel file (position + length block) (remaining - length block)
              (omega arith) (omega arith) in
          rw (more, full)
            (
              good,
              ap₂ (λ a b. a ++ b) (ap (λ t. slice file position (position + t)) (sym len))
                    (same
                      ∙ ap (slice file (position + length block)) {y = position + remaining}
                          (omega arith))
                  ∙ slice-append file position (position + length block) (position + remaining)
                      (omega arith) (omega arith),
            )
    ]

-- Every satisfiable range of a plain recording in the outbox, whose entry states its length, is served
-- with its bytes, block by block, and the read ends.
pub local_read_plain :
    (aead : Aead) (key : Option Bytes) (digest file : Bytes) (path : Text) (range : Option Text)
    (r : Selected)
    → ends_with_enc path ≡ false
    → resolve_byte_range range (length file) ≡ some r
    → (reply : Reply) × (local_read aead key digest file path (length file) range ≡ ok reply)
      × Serves file r reply
unfolding local_read
local_read_plain aead key digest file path range r plain e =
    let v : InObject (length file) r = resolve_byte_range-InObject range (length file) r e in
    let (good, same) =
      read_blocks_lem (r.last + 1 - r.start) file r.start (r.last + 1 - r.start) (omega arith)
        (omega (arith, v.ordered, v.inside)) in
    let whole : flatten (body_of aead key digest file none r.start r.last).out
        ≡ slice file r.start (r.last + 1) =
      same ∙ ap (slice file r.start) {y = r.last + 1} (omega (arith, v.ordered)) in
    (
      reply_for aead key digest file (length file) none (some r),
      rw (plain, e),
      record {
        status = refl;
        complete = good;
        bytes = whole;
        declared =
            sym
              (ap length whole ∙ length-slice file r.start (r.last + 1) (omega (arith, v.inside)));
      },
    )

-- A range of a plain file that cannot be satisfied is answered by 416, length 0 and no
-- body.
pub local_read_unsatisfiable :
    (aead : Aead) (key : Option Bytes) (digest file : Bytes) (path : Text) (size : ℕ)
    (range : Option Text)
    → ends_with_enc path ≡ false
    → resolve_byte_range range size ≡ none
    → (reply : Reply) × (local_read aead key digest file path size range ≡ ok reply)
      × (reply.status ≡ 416)
      × (reply.content_length ≡ 0)
      × (reply.body ≡ done)
unfolding local_read
local_read_unsatisfiable aead key digest file path size range plain e =
    (reply_for aead key digest file size none none, rw (plain, e), refl, refl, refl)
