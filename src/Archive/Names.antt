-- ===== src/Archive/Names.antt =====
-- archive.py: `parse_archive_filename`, and the file name that `archive_relative_path` writes. A name
-- is a list of code points. Durations and offsets are in milliseconds.
pub mod Pattern
pub mod Stamp
pub mod Decimal
pub mod RoundTrip
mod Examples
use camvault.Prelude.{
  ℕ, zero, suc, ◌+◌, ◌-◌, ◌*◌, ◌/◌, ◌%◌, List, [], ◌∷◌, ◌++◌, Bool, true, false, not, ◌&&◌, ◌||◌,
  Option, none, some, if◌then◌else◌, ltb, leb, ◌==◌, length, drop, replicate, min, max, text_eq,
}
use camvault.Read.Range.{Text, is_digit, to_number}
use camvault.Archive.Names.Pattern.{
  Captured, match_name, match_v1, no_stream, underscore, ms_mark, ts_suffix, enc_suffix,
}
use camvault.Archive.Names.Stamp.{read_stamp}

pub record AudioPoint : Type 0 where
  pub offset : ℕ
  pub duration : ℕ

pub record ParsedName : Type 0 where
  pub start : ℕ
  pub duration : ℕ
  pub sequence : ℕ
  pub stream_id : Option Text
  pub object_id : Text
  pub audio_index : List AudioPoint
  pub encrypted : Bool

-- `None`, the exception that no handler here takes, or the parts.
pub data Parsed : Type 0 where
  not_a_name : Parsed
  division_by_zero : Parsed
  parsed : ParsedName → Parsed

hex_value : ℕ → ℕ
unfolding is_digit
hex_value c = if is_digit c then c - b'0' else c - b'a' + 10

-- `bin(int(…, 16))`, with its leading zeros.
bits_of : Text → List Bool
unfolding hex_value
bits_of [] = []
bits_of (c ∷ cs) =
    let v = hex_value c in (leb 8 v) ∷ (leb 4 (v % 8)) ∷ (leb 2 (v % 4)) ∷ (v % 2 == 1) ∷ bits_of cs

-- `[2:].zfill(n)[-n:]`
last_slots : ℕ → List Bool → List Bool
last_slots n bits = let padded = replicate n false ++ bits in drop (length padded - n) padded

slot_count : ℕ → ℕ → ℕ
slot_count duration step = max 1 ((duration + (1000 * step - 1)) / (1000 * step))

points_from : ℕ → ℕ → ℕ → List Bool → List AudioPoint
points_from duration step index [] = []
points_from duration step index (active ∷ bits) =
    let offset = index * (1000 * step) in
    let rest = points_from duration step (index + 1) bits in
    if active && ltb offset duration
    then record { offset = offset; duration = min (1000 * step) (max 1 (duration - offset)) } ∷ rest
    else rest

unfoldable pub audio_points : ℕ → ℕ → Text → List AudioPoint
unfolding points_from last_slots slot_count bits_of
audio_points duration step bits =
    points_from duration step 0 (last_slots (slot_count duration step) (bits_of bits))

-- "tag:"
abbrev pub tag_prefix : Text
tag_prefix = b't' ∷ b'a' ∷ b'g' ∷ b':' ∷ []

unfoldable pub stream_id_of : Option Text → Option Text
stream_id_of none = none
stream_id_of (some tag) = if text_eq tag no_stream then none else some (tag_prefix ++ drop 1 tag)

parsed_of : Captured → ℕ → ℕ → List AudioPoint → Parsed
unfolding stream_id_of to_number
parsed_of m start duration points = parsed (record {
  start = start;
  duration = duration;
  sequence = to_number 0 m.sequence;
  stream_id = stream_id_of m.stream;
  object_id = m.object;
  audio_index = points;
  encrypted = m.encrypted;
})

with_audio : Captured → ℕ → ℕ → Option (Text × Text) → Parsed
unfolding parsed_of audio_points to_number
with_audio m start duration none = parsed_of m start duration []
with_audio m start duration (some (step, bits)) =
    if to_number 0 step == 0
    then division_by_zero
    else parsed_of m start duration (audio_points duration (to_number 0 step) bits)

-- The body of `try`; `ValueError` and `OverflowError` make it `None`.
from_match : Captured → Parsed
unfolding with_audio read_stamp to_number
from_match m = elim (read_stamp m.stamp) [
  | none ↦ not_a_name
  | some start ↦ with_audio m start (to_number 0 m.duration) m.audio
]

or_else : Option Captured → Option Captured → Option Captured
or_else none other = other
or_else (some m) other = some m

match_result : Option Captured → Parsed
unfolding from_match
match_result none = not_a_name
match_result (some m) = from_match m

unfoldable pub parse_name : Text → Parsed
unfolding match_result or_else match_name match_v1
parse_name cs = match_result (or_else (match_name cs) (match_v1 cs))

-- `_stream_tag`; `digest` is the hexadecimal BLAKE2s digest of six bytes.
unfoldable pub stream_tag : (Text → Text) → Option Text → Text
stream_tag digest none = no_stream
stream_tag digest (some stream) = b's' ∷ digest stream

-- The file name of `archive_relative_path`, with the suffix that `prepare_archive` adds to an
-- encrypted one; the stamp, the stream tag and the audio tag's parts are arguments.
digit_count : ℕ → ℕ → ℕ
digit_count zero n = 1
digit_count (suc fuel) n = let more = digit_count fuel (n / 10) in if ltb n 10 then 1 else more + 1

pub pad : ℕ → ℕ → Text
pad zero n = []
pad (suc w) n = pad w (n / 10) ++ (b'0' + n % 10) ∷ []

-- `{n:0wd}`: at least `w` digits. A number has at most as many digits as its value, and one.
unfoldable pub padded : ℕ → ℕ → Text
unfolding pad digit_count
padded w n = pad (max w (digit_count n n)) n

unfoldable pub audio_tag : Option (ℕ × Text) → Text
unfolding padded
audio_tag none = []
audio_tag (some (step, bits)) = b'a' ∷ (padded 1 step ++ (b'x' ∷ (bits ++ underscore)))

unfoldable pub file_name : Text → ℕ → ℕ → Text → Option (ℕ × Text) → Text → Bool → Text
unfolding padded audio_tag
file_name stamp sequence duration stream audio object encrypted =
    stamp
    ++ (underscore
        ++ (padded 12 sequence
            ++ (underscore
                ++ (padded 9 duration
                    ++ (ms_mark
                        ++ (stream
                            ++ (underscore
                                ++ (audio_tag audio
                                    ++ (object
                                        ++ (ts_suffix
                                            ++ (if encrypted then enc_suffix else [])))))))))))
