-- ===== src/Crypto/Layout/Bounds.antt =====
-- Where the chunks lie: the last one is short, none is empty, and a range touches only chunks that
-- are there.
use native.Mathlib.Nat.{div-add-mod, mod-lt}
use camvault.Prelude.{ℕ, suc, ◌+◌, ◌-◌, ◌*◌, ◌/◌, ◌%◌, ◌≤◌, ◌<◌, ◌≡◌, min, arith}
use camvault.Crypto.Header.{Header, ok, chunk_count, tag_bytes, header_bytes}
use camvault.Crypto.Layout.{plaintext_chunk_size, encrypted_chunk_offset, span_for_range, Span}

ceil_bounds : (p c : ℕ) → 1 ≤ c → (p ≤ (p + c - 1) / c * c) × ((p + c - 1) / c * c < p + c)
ceil_bounds p c h =
    let q : ℕ = (p + c - 1) / c in
    let e : c * q + (p + c - 1) % c ≡ p + c - 1 = div-add-mod (p + c - 1) c in
    let r : (p + c - 1) % c < c = mod-lt (p + c - 1) h in (omega arith, omega arith)

-- The chunks cover the plaintext and the last one is not empty.
pub chunk_count_bounds :
    (h : Header)
    → 1 ≤ h.chunk_size
    → (h.plaintext_size ≤ chunk_count h * h.chunk_size)
      × (chunk_count h * h.chunk_size < h.plaintext_size + h.chunk_size)
unfolding chunk_count
chunk_count_bounds h s = ground (arith, ceil_bounds h.plaintext_size h.chunk_size s)

-- An index is in range exactly when its chunk begins inside the plaintext.
pub lt-chunk_count :
    (h : Header) (i : ℕ)
    → 1 ≤ h.chunk_size
    → i < chunk_count h
    → i * h.chunk_size < h.plaintext_size
lt-chunk_count h i s k =
    let (a, b) = chunk_count_bounds h s in
    let m : suc i * h.chunk_size ≤ chunk_count h * h.chunk_size = grind arith in omega arith

pub chunk_count-lt :
    (h : Header) (i : ℕ)
    → 1 ≤ h.chunk_size
    → i * h.chunk_size < h.plaintext_size
    → i < chunk_count h
chunk_count-lt h i s k = let (a, b) = chunk_count_bounds h s in grind arith

-- The chunk that holds a byte.
pub chunk_of : (n c : ℕ) → 1 ≤ c → (n / c * c ≤ n) × (n < (n / c + 1) * c)
chunk_of n c h =
    let e : c * (n / c) + n % c ≡ n = div-add-mod n c in
    let r : n % c < c = mod-lt n h in (omega arith, omega arith)

pub chunk_of-lt-count :
    (h : Header) (n : ℕ)
    → 1 ≤ h.chunk_size
    → n < h.plaintext_size
    → n / h.chunk_size < chunk_count h
chunk_of-lt-count h n s k =
    let (a, b) = chunk_of n h.chunk_size s in chunk_count-lt h (n / h.chunk_size) s (omega arith)

abbrev pub stored_size : Header → ℕ
stored_size h = header_bytes + h.plaintext_size + chunk_count h * tag_bytes

-- The end of a chunk stays within the stored object.
pub chunk_end-le :
    (h : Header) (i : ℕ)
    → 1 ≤ h.chunk_size
    → i < chunk_count h
    → i * (h.chunk_size + tag_bytes)
        + min h.chunk_size (h.plaintext_size - i * h.chunk_size)
        + tag_bytes
        + header_bytes
      ≤ stored_size h
chunk_end-le h i s k =
    let a : i * h.chunk_size < h.plaintext_size = lt-chunk_count h i s k in omega arith

-- A range inside the plaintext has a span: its chunks hold the first and the last byte, and the
-- stored bytes lie between the header and the end of the object.
pub record Covers (h : Header) (start last : ℕ) (s : Span) : Type 0 where
  pub first_le : s.first_chunk * h.chunk_size ≤ start
  pub first_lt : start < (s.first_chunk + 1) * h.chunk_size
  pub last_le : s.last_chunk * h.chunk_size ≤ last
  pub last_lt : last < (s.last_chunk + 1) * h.chunk_size
  pub after_header : header_bytes ≤ s.stored_start
  pub not_empty : s.stored_start ≤ s.stored_end
  pub inside : s.stored_end < stored_size h

abbrev pub span : Header → ℕ → ℕ → Span
span h start last = record {
  first_chunk = start / h.chunk_size;
  last_chunk = last / h.chunk_size;
  stored_start = header_bytes + start / h.chunk_size * (h.chunk_size + tag_bytes);
  stored_end =
      header_bytes
      + last / h.chunk_size * (h.chunk_size + tag_bytes)
      + min h.chunk_size (h.plaintext_size - last / h.chunk_size * h.chunk_size)
      + tag_bytes
      - 1;
}

module _ (h : Header) (start last : ℕ) (s : 1 ≤ h.chunk_size) (order : start ≤ last)
    (inside : last < h.plaintext_size) where
  pub span_for_range-eq : span_for_range h start last ≡ ok (span h start last)
  unfolding span_for_range encrypted_chunk_offset plaintext_chunk_size
  span_for_range-eq =
      ground (arith, chunk_of-lt-count h start s (omega arith), chunk_of-lt-count h last s inside)

  pub span-Covers : Covers h start last (span h start last)
  span-Covers =
      let (a, b) = chunk_of start h.chunk_size s in
      let (c, d) = chunk_of last h.chunk_size s in
      let k : last / h.chunk_size < chunk_count h = chunk_of-lt-count h last s inside in
      let m : start / h.chunk_size ≤ last / h.chunk_size = grind arith in
      let n : start / h.chunk_size * (h.chunk_size + tag_bytes)
          ≤ last / h.chunk_size * (h.chunk_size + tag_bytes) =
        grind arith in
      record {
        first_le = a;
        first_lt = b;
        last_le = c;
        last_lt = d;
        after_header = omega arith;
        not_empty = omega arith;
        inside = omega (arith, chunk_end-le h (last / h.chunk_size) s k);
      }

  -- A range inside the plaintext has a span: its first and last chunk hold the first and the last
  -- byte, and its stored bytes lie behind the header and before the end of the object.
  pub span_for_range-Covers :
      (r : Span) × (span_for_range h start last ≡ ok r) × Covers h start last r
  span_for_range-Covers = (span h start last, span_for_range-eq, span-Covers)
