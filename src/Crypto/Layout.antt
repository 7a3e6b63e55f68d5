-- ===== src/Crypto/Layout.antt =====
-- crypto.py: sizes and offsets of the encrypted chunks. Python's integers are numbers here: sizes
-- and indices come from `len`, unsigned fields and sums of these, so the source's tests for a
-- negative one never fire.
pub mod Bounds
use camvault.Prelude.{ℕ, ◌+◌, ◌-◌, ◌*◌, ◌/◌, Bool, ◌||◌, min, ltb, leb, if◌then◌else◌, replicate}
use camvault.Crypto.Header.{
  Header, Result, ok, err, ◌>>=◌, index_out_of_range, bad_range, chunk_count, new_header, tag_bytes,
  header_bytes,
}

unfoldable pub encrypted_size : ℕ → ℕ → Result ℕ
encrypted_size plaintext_size chunk_size = do
  h ← new_header plaintext_size chunk_size (replicate 12 0)
  ok (header_bytes + plaintext_size + chunk_count h * tag_bytes)

unfoldable pub plaintext_chunk_size : Header → ℕ → Result ℕ
plaintext_chunk_size h index =
    if leb (chunk_count h) index
    then err index_out_of_range
    else ok (min h.chunk_size (h.plaintext_size - index * h.chunk_size))

unfoldable pub encrypted_chunk_offset : Header → ℕ → Result ℕ
encrypted_chunk_offset h index =
    if leb (chunk_count h) index
    then err index_out_of_range
    else ok (header_bytes + index * (h.chunk_size + tag_bytes))

pub record Span : Type 0 where
  pub first_chunk : ℕ
  pub last_chunk : ℕ
  pub stored_start : ℕ
  pub stored_end : ℕ

unfoldable pub span_for_range : Header → ℕ → ℕ → Result Span
span_for_range h start last =
    if ltb last start || leb h.plaintext_size last then err bad_range else do
      stored_start ← encrypted_chunk_offset h (start / h.chunk_size)
      last_offset ← encrypted_chunk_offset h (last / h.chunk_size)
      last_size ← plaintext_chunk_size h (last / h.chunk_size)
      ok (record {
        first_chunk = start / h.chunk_size;
        last_chunk = last / h.chunk_size;
        stored_start = stored_start;
        stored_end = last_offset + last_size + tag_bytes - 1;
      })
