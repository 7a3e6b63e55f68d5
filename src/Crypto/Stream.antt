-- ===== src/Crypto/Stream.antt =====
-- crypto.py: `encrypt_archive_chunks`, a generator. What it yields before it returns or raises is
-- the list `out`. The nonce base is an argument (`secrets.token_bytes(12)` if the caller gives none).
pub mod Sealed
use camvault.Prelude.{
  ℕ, zero, suc, ◌+◌, List, [], ◌∷◌, ◌++◌, not, length, take, drop, ltb, leb, ◌==◌, if◌then◌else◌,
}
use camvault.Crypto.Bytes.{Bytes}
use camvault.Crypto.Header.{
  Header, Result, ok, err, input_exceeded, input_short, bad_chunk_count, new_header, pack,
  chunk_count,
}
use camvault.Crypto.Cipher.{Aead, encrypt_chunk}

pub record Run : Type 0 where
  pub out : List Bytes
  pub outcome : Result (Unit {0})

abbrev pub emit : List Bytes → Run → Run
emit ys r = record r { out = ys ++ r.out }

pub record Drained : Type 0 where
  pub out : List Bytes
  pub pending : Bytes
  pub index : ℕ

module _ (aead : Aead) (key digest : Bytes) (h : Header) where
  -- `while len(pending) >= chunk_size`, on fuel: each round takes a chunk, which is not empty, off
  -- `pending`, so its length is enough.
  unfoldable pub drain : ℕ → Bytes → ℕ → Drained
  drain zero pending index = record { out = []; pending = pending; index = index }
  drain (suc fuel) pending index =
      let rest = drain fuel (drop h.chunk_size pending) (index + 1) in
      if leb h.chunk_size (length pending)
      then record rest {
        out = encrypt_chunk aead key digest h index (take h.chunk_size pending) ∷ rest.out;
      }
      else record { out = []; pending = pending; index = index }

  -- After the last source: the short chunk, then the checks of the totals.
  unfoldable pub finish : Bytes → ℕ → ℕ → Run
  finish pending consumed index =
      let short = length pending == 0 in
      record {
        out = if short then [] else encrypt_chunk aead key digest h index pending ∷ [];
        outcome =
            if not (consumed == h.plaintext_size)
            then err input_short
            else if not ((if short then index else index + 1) == chunk_count h)
            then err bad_chunk_count
            else ok tt;
      }

  unfoldable pub encrypt_from : List Bytes → Bytes → ℕ → ℕ → Run
  unfolding finish
  encrypt_from [] pending consumed index = finish pending consumed index
  encrypt_from (source ∷ sources) pending consumed index =
      let skipped = encrypt_from sources pending consumed index in
      let d = drain (length (pending ++ source)) (pending ++ source) index in
      let next = emit d.out (encrypt_from sources d.pending (consumed + length source) d.index) in
      if length source == 0
      then skipped
      else if ltb h.plaintext_size (consumed + length source)
      then record { out = []; outcome = err input_exceeded }
      else next

module _ (aead : Aead) (key digest : Bytes) where
  with_header : List Bytes → Result Header → Run
  with_header sources (err e) = record { out = []; outcome = err e }
  with_header sources (ok h) = emit (pack h ∷ []) (encrypt_from aead key digest h sources [] 0 0)

  unfoldable pub encrypt_archive : ℕ → ℕ → Bytes → List Bytes → Run
  unfolding with_header
  encrypt_archive plaintext_size chunk_size nonce sources =
      with_header sources (new_header plaintext_size chunk_size nonce)
