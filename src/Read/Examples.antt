-- ===== src/Read/Examples.antt =====
-- Reads of the small archive and of a plain file of five bytes.
use camvault.Prelude.{
  zero, suc, inl, inr, ℕ, ◌-◌, ◌<◌, ◌≡◌, refl, ap, ◌∙◌, List, [], ◌∷◌, ◌++◌, true, false, none,
  some, arith, take, drop, take-append-drop, append-nil, slice, flatten, All,
}
use camvault.Crypto.Bytes.{Bytes}
use camvault.Crypto.Header.{ok}
use camvault.Crypto.Layout.Bounds.{span}
use camvault.Crypto.Contents.{stored}
use camvault.Crypto.Examples.{tagging, three, small, small-IsSound}
use camvault.Read.Range.{digits, without_prefix, Text, resolve_byte_range, to_number, is_digit}
use camvault.Read.Range.Resolved.{
  InObject, IsDigit, range_text, resolve_byte_range-InObject, resolve_closed,
}
use camvault.Read.Local.{Reply, local_read, ends_with_enc}
use camvault.Read.Local.Correct.{Serves, local_read_encrypted, local_read_plain}
use camvault.Read.Remote.{decrypt_remote_range}
use camvault.Read.Remote.Open.{Opened, Response, content_start, open_encrypted_recording}
use camvault.Read.Remote.Open.Answers.{Keeps}
use camvault.Read.Remote.Open.Served.{open_encrypted_recording-Serves}
use camvault.Read.Remote.Correct.{span_size, decrypt_remote_range-eq}

-- "12" and "3".
abbrev twelve : Text
twelve = 49 ∷ 50 ∷ []

abbrev digit_3 : Text
digit_3 = 51 ∷ []

All-twelve : All IsDigit twelve
unfolding is_digit
All-twelve = (refl, (refl, tt))

All-3 : All IsDigit digit_3
unfolding is_digit
All-3 = (refl, tt)

resolve_closed_example :
    resolve_byte_range (some (range_text digit_3 twelve)) 10
    ≡ some (record { status = 206; start = 3; last = 9 })
unfolding to_number
resolve_closed_example =
    resolve_closed 51 [] twelve 10 All-3 All-twelve (omega arith) (omega arith) (omega arith)

resolve_byte_range-InObject_example : InObject 10 (record { status = 206; start = 3; last = 9 })
resolve_byte_range-InObject_example =
    resolve_byte_range-InObject (some (range_text digit_3 twelve)) 10
      (record { status = 206; start = 3; last = 9 }) resolve_closed_example

-- "a.enc" and "a.ts"
abbrev encrypted_path : Text
encrypted_path = 97 ∷ 46 ∷ 101 ∷ 110 ∷ 99 ∷ []

abbrev plain_path : Text
plain_path = 97 ∷ 46 ∷ 116 ∷ 115 ∷ []

is_encrypted : ends_with_enc encrypted_path ≡ true
unfolding ends_with_enc
is_encrypted = refl

is_plain : ends_with_enc plain_path ≡ false
unfolding ends_with_enc
is_plain = refl

whole :
    (size : ℕ)
    → 0 < size
    → resolve_byte_range none size ≡ some (record { status = 200; start = 0; last = size - 1 })
unfolding resolve_byte_range
whole size h = ground arith

empty : resolve_byte_range none 0 ≡ none
unfolding resolve_byte_range
empty = refl

local_read_encrypted_example :
    (reply : Reply) × (local_read tagging
        (some three)
        three
        (stored tagging three three small three)
        encrypted_path
        3
        none
      ≡ ok reply)
    × Serves three (record { status = 200; start = 0; last = 2 }) reply
local_read_encrypted_example =
    local_read_encrypted tagging three three small three small-IsSound refl encrypted_path 3 none
      (record { status = 200; start = 0; last = 2 }) is_encrypted (whole 3 (omega arith))

local_read_plain_example :
    (reply : Reply) × (local_read tagging none [] (5 ∷ 6 ∷ three) plain_path 5 none ≡ ok reply)
    × Serves (5 ∷ 6 ∷ three) (record { status = 200; start = 0; last = 4 }) reply
local_read_plain_example =
    local_read_plain tagging none [] (5 ∷ 6 ∷ three) plain_path none
      (record { status = 200; start = 0; last = 4 }) is_plain (whole 5 (omega arith))

-- The whole object, cut after 40 bytes: the server ignored the range.
abbrev object : Bytes
object = stored tagging three three small three

abbrev cut : List Bytes
cut = take 40 object ∷ drop 40 object ∷ []

flatten-cut : flatten cut ≡ object
unfolding flatten
flatten-cut =
    ap (λ t. take 40 object ++ t) (append-nil (drop 40 object)) ∙ take-append-drop 40 object

decrypt_remote_range-eq_example :
    let body =
      decrypt_remote_range tagging three three small
        (span small 1 2).first_chunk
        (span small 1 2).last_chunk
        (span_size tagging three three small three small-IsSound refl 1 2)
        32
        1
        2
        cut in
    (body.failure ≡ none) × (flatten body.out ≡ slice three 1 3)
decrypt_remote_range-eq_example =
    decrypt_remote_range-eq tagging three three small three small-IsSound refl 1 2 32 cut
      (omega arith) (omega arith)
      (ap (λ t. take (span_size tagging three three small three small-IsSound refl 1 2) (drop 32 t))
        flatten-cut)

-- "bytes 32-50/51"
abbrev content_range : Text
content_range =
    b'b' ∷ b'y' ∷ b't' ∷ b'e' ∷ b's' ∷ b' ' ∷ b'3' ∷ b'2' ∷ b'-' ∷ b'5' ∷ b'0' ∷ b'/' ∷ b'5' ∷ b'1'
    ∷ []

-- A server that gives the whole object for a range from its start, and the chunk's range else.
abbrev get : ℕ → ℕ → Response
get zero last = record { status = some 200; content_range = []; chunks = cut }
get (suc first) last = record {
  status = some 206;
  content_range = content_range;
  chunks = slice object 32 51 ∷ [];
}

Keeps-header : Keeps object get 0 31
Keeps-header = record { answer = inl (refl, flatten-cut) }

Keeps-chunk : Keeps object get 32 50
unfolding flatten content_start without_prefix digits is_digit to_number
Keeps-chunk = record { answer = inr (refl, refl, append-nil (slice object 32 51)) }

open_encrypted_recording-Serves_example :
    (reply : Reply) × (open_encrypted_recording tagging (some three) three get none
      ≡ Opened.ok reply)
    × Serves three (record { status = 200; start = 0; last = 2 }) reply
open_encrypted_recording-Serves_example =
    open_encrypted_recording-Serves tagging three three small three small-IsSound refl get none
      (record { status = 200; start = 0; last = 2 }) (whole 3 (omega arith)) Keeps-header
      Keeps-chunk
