-- ===== src/Archive/Names/Pattern.antt =====
-- archive.py: the two patterns of an archive's file name, `_ARCHIVE_FILENAME_RE` and
-- `_ARCHIVE_FILENAME_V1_RE`, matched in full. `\d` stands for the ASCII digits here.
pub mod Matches
use camvault.Prelude.{
  ℕ, zero, suc, ◌+◌, ◌-◌, ◌*◌, List, [], ◌∷◌, ◌++◌, Bool, true, false, not, ◌&&◌, ◌||◌, Option,
  none, some, if◌then◌else◌, ltb, leb, ◌==◌, length,
}
use camvault.Read.Range.{Text, is_digit, without_prefix}

infixl 5 ◌>>=◌
abbrev pub ◌>>=◌ {ℓ κ} : {A : Type ℓ} {B : Type κ} → Option A → (A → Option B) → Option B
none >>= f = none
some a >>= f = f a

unfoldable pub is_hex : ℕ → Bool
unfolding is_digit
is_hex c = is_digit c || (leb b'a' c && leb c b'f')

-- Exactly `n` characters of a class, and the rest.
unfoldable pub exactly : (ℕ → Bool) → ℕ → Text → Option (Text × Text)
exactly test zero cs = some ([], cs)
exactly test (suc n) [] = none
exactly test (suc n) (c ∷ cs) =
    if test c then exactly test n cs >>= (λ p. some (c ∷ p.0, p.1)) else none

-- The longest run of a class, and the rest.
unfoldable pub run : (ℕ → Bool) → Text → Text × Text
run test [] = ([], [])
run test (c ∷ cs) = let (r, rest) = run test cs in if test c then (c ∷ r, rest) else ([], c ∷ cs)

-- What the patterns capture.
pub record Captured : Type 0 where
  pub stamp : Text
  pub sequence : Text
  pub duration : Text
  pub stream : Option Text
  pub audio : Option (Text × Text)
  pub object : Text
  pub encrypted : Bool

-- `\d{8}T\d{6}[+-]\d{4}`
pub match_stamp : Text → Option (Text × Text)
unfolding exactly is_digit without_prefix
match_stamp cs = do
  (day, after_day) ← exactly is_digit 8 cs
  at_time ← without_prefix (b'T' ∷ []) after_day
  (time, after_time) ← exactly is_digit 6 at_time
  (sign, after_sign) ← exactly (λ c. c == b'+' || c == b'-') 1 after_time
  (offset, rest) ← exactly is_digit 4 after_sign
  some (day ++ b'T' ∷ (time ++ (sign ++ offset)), rest)

abbrev pub underscore : Text
underscore = b'_' ∷ []

-- "ms_"
abbrev pub ms_mark : Text
ms_mark = b'm' ∷ b's' ∷ b'_' ∷ []

-- "snone"
abbrev pub no_stream : Text
no_stream = b's' ∷ b'n' ∷ b'o' ∷ b'n' ∷ b'e' ∷ []

-- ".ts" and ".enc"
abbrev pub ts_suffix : Text
ts_suffix = b'.' ∷ b't' ∷ b's' ∷ []

abbrev pub enc_suffix : Text
enc_suffix = b'.' ∷ b'e' ∷ b'n' ∷ b'c' ∷ []

-- The fields that both patterns begin with: the stamp, the sequence and the duration.
pub match_start : Text → Option ((Text × Text × Text) × Text)
unfolding match_stamp exactly is_digit without_prefix
match_start cs = do
  (stamp, after_stamp) ← match_stamp cs
  at_sequence ← without_prefix underscore after_stamp
  (sequence, after_sequence) ← exactly is_digit 12 at_sequence
  at_duration ← without_prefix underscore after_sequence
  (duration, after_duration) ← exactly is_digit 9 at_duration
  rest ← without_prefix ms_mark after_duration
  some ((stamp, sequence, duration), rest)

-- `s(?:none|[0-9a-f]{12})`
pub match_stream : Text → Option (Text × Text)
unfolding exactly is_hex without_prefix
match_stream cs = elim (without_prefix no_stream cs) [
  | some rest ↦ some (no_stream, rest)
  | none ↦ do
    at_tag ← without_prefix (b's' ∷ []) cs
    (tag, rest) ← exactly is_hex 12 at_tag
    some (b's' ∷ tag, rest)
]

in_length : ℕ → ℕ → Text → Option (Unit {0})
in_length low high cs = if leb low (length cs) && leb (length cs) high then some tt else none

-- `(?:(a\d{1,4})x([0-9a-f]{1,64})_)?`: what follows each run is not of its class, so the run is the
-- only match. Where the group is there, no object's twelve digits are: its `x` is among them.
pub match_audio : Text → Option ((Text × Text) × Text)
unfolding run is_digit is_hex without_prefix in_length
match_audio cs = do
  at_step ← without_prefix (b'a' ∷ []) cs
  let (step, after_step) = run is_digit at_step
  _ ← in_length 1 4 step
  at_bits ← without_prefix (b'x' ∷ []) after_step
  let (bits, after_bits) = run is_hex at_bits
  _ ← in_length 1 64 bits
  rest ← without_prefix underscore after_bits
  some ((step, bits), rest)

pub optional_audio : Text → Option (Text × Text) × Text
unfolding match_audio
optional_audio cs = elim (match_audio cs) [
  | none ↦ (none, cs)
  | some (audio, rest) ↦ (some audio, rest)
]

-- `(\.enc)?$`
pub match_end : Text → Option Bool
unfolding without_prefix
match_end [] = some false
match_end (c ∷ cs) = elim (without_prefix enc_suffix (c ∷ cs)) [ some [] ↦ some true | _ ↦ none ]

-- `_ARCHIVE_FILENAME_RE.fullmatch`
unfoldable pub match_name : Text → Option Captured
unfolding match_start match_stream optional_audio match_end exactly is_hex without_prefix
match_name cs = do
  ((stamp, sequence, duration), at_stream) ← match_start cs
  (stream, after_stream) ← match_stream at_stream
  at_audio ← without_prefix underscore after_stream
  let (audio, at_object) = optional_audio at_audio
  (object, after_object) ← exactly is_hex 12 at_object
  at_end ← without_prefix ts_suffix after_object
  encrypted ← match_end at_end
  some (record {
    stamp = stamp;
    sequence = sequence;
    duration = duration;
    stream = some stream;
    audio = audio;
    object = object;
    encrypted = encrypted;
  })

-- `_ARCHIVE_FILENAME_V1_RE.fullmatch`
unfoldable pub match_v1 : Text → Option Captured
unfolding match_start exactly is_hex without_prefix
match_v1 cs = do
  ((stamp, sequence, duration), at_object) ← match_start cs
  (object, after_object) ← exactly is_hex 6 at_object
  at_end ← without_prefix ts_suffix after_object
  if length at_end == 0
      then some (record {
        stamp = stamp;
        sequence = sequence;
        duration = duration;
        stream = none;
        audio = none;
        object = object;
        encrypted = false;
      })
      else none
