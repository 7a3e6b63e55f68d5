-- ===== src/Crypto/Header.antt =====
-- crypto.py: the archive header, its `struct` layout `>8sIQ12s`, and its checks.
pub mod RoundTrip
use camvault.Prelude.{
  ℕ, ◌+◌, ◌-◌, ◌*◌, ◌/◌, ◌^◌, ◌≤◌, ◌<◌, ◌≡◌, refl, List, [], ◌∷◌, ◌++◌, Bool, true, false, not,
  ◌||◌, arith, ltb, leb, ◌==◌, if◌then◌else◌, length, take, drop,
}
use camvault.Crypto.Bytes.{Bytes, to_be, from_be}

pub data CryptoError : Type 0 where
  bad_chunk_size too_many_chunks bad_nonce : CryptoError
  bad_header_size bad_signature : CryptoError
  index_out_of_range bad_range : CryptoError
  bad_payload_size authentication_failed : CryptoError
  input_exceeded input_short bad_chunk_count : CryptoError

pub data Result {ℓ} (A : Type ℓ) : Type ℓ where
  ok : A → Result A
  err : CryptoError → Result A

infixl 5 ◌>>=◌
abbrev pub ◌>>=◌ {ℓ κ} : {A : Type ℓ} {B : Type κ} → Result A → (A → Result B) → Result B
ok a >>= f = f a
err e >>= f = err e

-- b"CVAEAD01"
abbrev pub magic : Bytes
magic = 67 ∷ 86 ∷ 65 ∷ 69 ∷ 65 ∷ 68 ∷ 48 ∷ 49 ∷ []

abbrev pub tag_bytes : ℕ
tag_bytes = 16

abbrev pub header_bytes : ℕ
header_bytes = 32

abbrev pub max_chunks : ℕ
max_chunks = 2 ^ 32

pub record Header : Type 0 where
  pub chunk_size : ℕ
  pub plaintext_size : ℕ
  pub nonce_base : Bytes

unfoldable pub chunk_count : Header → ℕ
chunk_count h =
    if h.plaintext_size == 0 then 0 else (h.plaintext_size + h.chunk_size - 1) / h.chunk_size

unfoldable pub pack : Header → Bytes
pack h = magic ++ (to_be 4 h.chunk_size ++ (to_be 8 h.plaintext_size ++ h.nonce_base))

-- The nonce base is an argument: where the caller gives none, it is `secrets.token_bytes(12)`.
unfoldable pub new_header : ℕ → ℕ → Bytes → Result Header
new_header plaintext_size chunk_size nonce =
    if ltb chunk_size (64 * 1024) || ltb (8 * 1024 * 1024) chunk_size
    then err bad_chunk_size
    else if leb max_chunks ((plaintext_size + chunk_size - 1) / chunk_size)
    then err too_many_chunks
    else if not (length nonce == 12)
    then err bad_nonce
    else ok
        (record { chunk_size = chunk_size; plaintext_size = plaintext_size; nonce_base = nonce })

bytes_eq : Bytes → Bytes → Bool
bytes_eq [] [] = true
bytes_eq [] (y ∷ ys) = false
bytes_eq (x ∷ xs) [] = false
bytes_eq (x ∷ xs) (y ∷ ys) = if x == y then bytes_eq xs ys else false

unfoldable pub parse_header : Bytes → Result Header
unfolding bytes_eq
parse_header payload =
    if not (length payload == header_bytes)
    then err bad_header_size
    else if not (bytes_eq (take 8 payload) magic)
    then err bad_signature
    else new_header (from_be (take 8 (drop 12 payload))) (from_be (take 4 (drop 8 payload)))
        (drop 20 payload)

-- What the checks of a new header establish.
pub record IsSound (h : Header) : Type 0 where
  pub min_chunk : 64 * 1024 ≤ h.chunk_size
  pub max_chunk : h.chunk_size ≤ 8 * 1024 * 1024
  pub few_chunks : (h.plaintext_size + h.chunk_size - 1) / h.chunk_size < max_chunks
  pub nonce_size : length h.nonce_base ≡ 12
