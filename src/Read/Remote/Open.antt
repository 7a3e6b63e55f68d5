-- ===== src/Read/Remote/Open.antt =====
-- storage.py: `_open_remote_response`, `_iter_http_response` and `_open_encrypted_recording` of
-- `WebDAVStorageBackend`. The server's response to a GET with the range `bytes=first-last` is an
-- argument. A response's body comes as a list of chunks that does not break off. The
-- closing of a response and its `last-modified` header are left out.
pub mod Answers
pub mod Served
use camvault.Prelude.{
  ℕ, ◌+◌, ◌-◌, ◌≡◌, List, [], ◌∷◌, ◌++◌, Bool, true, false, not, ◌&&◌, ◌||◌, Option, none, some,
  length, take, ◌==◌, if◌then◌else◌,
}
use camvault.Crypto.Bytes.{Bytes}
use camvault.Crypto.Header.{CryptoError, Header, header_bytes, parse_header}
use camvault.Crypto.Header as Crypto
use camvault.Crypto.Layout.{Span, span_for_range}
use camvault.Crypto.Cipher.{Aead}
use camvault.Read.Range.{Text, Selected, resolve_byte_range, digits, to_number, without_prefix}
use camvault.Read.Body.{Body, done}
use camvault.Read.Local.{Reply}
use camvault.Read.Remote.{decrypt_remote_range}

pub data OpenError : Type 0 where
  no_answer : OpenError
  not_found : OpenError
  bad_status : ℕ → OpenError
  no_key : OpenError
  no_header : OpenError
  crypto : CryptoError → OpenError
  no_data : OpenError
  bad_content_range : OpenError

pub data Opened (A : Type 0) : Type 0 where
  ok : A → Opened A
  err : OpenError → Opened A

infixl 5 ◌>>=◌
abbrev pub ◌>>=◌ : {A B : Type 0} → Opened A → (A → Opened B) → Opened B
ok a >>= f = f a
err e >>= f = err e

-- The status is `none` for an `httpx.HTTPError`; a missing `content-range` is the empty text.
pub record Response : Type 0 where
  pub status : Option ℕ
  pub content_range : Text
  pub chunks : List Bytes

abbrev with_status : Response → Option ℕ → Opened Response
with_status r none = err no_answer
with_status r (some status) =
    if status == 404
    then err not_found
    else if status == 200 || status == 206 || status == 416
    then ok r
    else err (bad_status status)

unfoldable pub open_response : Response → Opened Response
open_response r = with_status r r.status

abbrev pub status_is : ℕ → Option ℕ → Bool
status_is n none = false
status_is n (some status) = status == n

abbrev pub has_status : ℕ → Response → Bool
has_status n r = status_is n r.status

-- The loop that gathers the header: each chunk gives what is missing.
unfoldable pub gather : Bytes → List Bytes → Bytes
gather header [] = header
gather header (chunk ∷ chunks) =
    let more = header ++ take (header_bytes - length header) chunk in
    let rest = gather more chunks in if length more == header_bytes then more else rest

-- "bytes "
abbrev unit_space : Text
unit_space = b'b' ∷ b'y' ∷ b't' ∷ b'e' ∷ b's' ∷ b' ' ∷ []

abbrev is_size : Text → Bool
is_size [] = false
is_size (c ∷ cs) = (c == b'*' && length cs == 0) || length (digits (c ∷ cs)).1 == 0

abbrev not_empty : Text → Bool
not_empty [] = false
not_empty (d ∷ ds) = true

abbrev after_last : ℕ → Text × Text → Option ℕ
after_last first (last, []) = none
after_last first (last, c ∷ size) =
    if not_empty last && c == b'/' && is_size size then some first else none

abbrev after_first : Text × Text → Option ℕ
after_first (first, []) = none
after_first (first, c ∷ rest) =
    if not_empty first && c == b'-' then after_last (to_number 0 first) (digits rest) else none

abbrev after_unit : Option Text → Option ℕ
after_unit none = none
after_unit (some rest) = after_first (digits rest)

-- `re.fullmatch(r"bytes (\d+)-(\d+)/(?:\d+|\*)", …)`: the first group.
unfoldable pub content_start : Text → Option ℕ
content_start value = after_unit (without_prefix unit_space value)

abbrev begins_at : ℕ → Option ℕ → Bool
begins_at start none = false
begins_at start (some first) = first == start

-- A response with status 206 begins at the byte that was asked for.
abbrev is_placed : ℕ → Response → Bool
is_placed start r = begins_at start (content_start r.content_range)

abbrev from_crypto : {A : Type 0} → Crypto.Result A → Opened A
from_crypto (Crypto.Result.ok a) = ok a
from_crypto (Crypto.Result.err e) = err (crypto e)

module _ (aead : Aead) (key digest : Bytes) (get : ℕ → ℕ → Response) (h : Header)
    (r : Selected) where
  -- The reply whose body decrypts the data response.
  reply_from : Span → Response → Reply
  unfolding decrypt_remote_range
  reply_from s data_response = record {
    status = r.status;
    content_length = r.last - r.start + 1;
    content_range =
        if r.status == 206 then some (some (r.start, r.last), h.plaintext_size) else none;
    body =
        decrypt_remote_range aead key digest h s.first_chunk s.last_chunk
          (s.stored_end - s.stored_start + 1)
          (if has_status 200 data_response then s.stored_start else 0) r.start r.last
          data_response.chunks;
  }

  abbrev checked : Span → Response → Opened Reply
  checked s data_response =
      if has_status 416 data_response
      then err no_data
      else if has_status 206 data_response && not (is_placed s.stored_start data_response)
      then err bad_content_range
      else ok (reply_from s data_response)

  open_range : Opened Reply
  unfolding reply_from
  open_range = do
    s ← from_crypto (span_for_range h r.start r.last)
    data_response ← open_response (get s.stored_start s.stored_end)
    checked s data_response

abbrev open_selected :
    Aead → Bytes → Bytes → (ℕ → ℕ → Response) → Header → Option Selected → Opened Reply
open_selected aead key digest get h none = ok (record {
  status = 416;
  content_length = 0;
  content_range = some (none, h.plaintext_size);
  body = done;
})
open_selected aead key digest get h (some r) = open_range aead key digest get h r

abbrev header_of : Response → Opened Header
header_of r =
    if has_status 416 r then err no_header else from_crypto (parse_header (gather [] r.chunks))

unfoldable pub open_encrypted_recording :
    Aead → Option Bytes → Bytes → (ℕ → ℕ → Response) → Option Text → Opened Reply
unfolding open_range
open_encrypted_recording aead none digest get range = err no_key
open_encrypted_recording aead (some key) digest get range = do
  header_response ← open_response (get 0 (header_bytes - 1))
  h ← header_of header_response
  open_selected aead key digest get h (resolve_byte_range range h.plaintext_size)
