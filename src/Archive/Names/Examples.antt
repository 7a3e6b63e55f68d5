-- ===== src/Archive/Names/Examples.antt =====
-- archive.py, the names of archives: concrete names.
use camvault.Prelude.{◌≡◌, refl, [], ◌∷◌, true, false, none, some, replicate, arith}
use camvault.Read.Range.{Text, is_digit}
use camvault.Archive.Names.{
  parsed, not_a_name, division_by_zero, parse_name, file_name, stream_tag, audio_points,
}
use camvault.Archive.Names.Pattern.{is_hex}
use camvault.Archive.Names.Pattern.Matches.{Of, IsStamp, stamp_text}
use camvault.Archive.Names.Stamp.{read_stamp}
use camvault.Archive.Names.RoundTrip.{
  IsTag, kept_stream, kept_audio, parse_name-file_name, parse_name-zero_step,
}

-- 20240229, 235959 and 0530
abbrev leap_day : Text
leap_day = b'2' ∷ b'0' ∷ b'2' ∷ b'4' ∷ b'0' ∷ b'2' ∷ b'2' ∷ b'9' ∷ []

abbrev last_second : Text
last_second = b'2' ∷ b'3' ∷ b'5' ∷ b'9' ∷ b'5' ∷ b'9' ∷ []

abbrev half_past_five : Text
half_past_five = b'0' ∷ b'5' ∷ b'3' ∷ b'0' ∷ []

abbrev object : Text
object = replicate 12 b'a'

abbrev digest : Text → Text
digest stream = replicate 12 b'0'

leap-IsStamp : IsStamp leap_day last_second b'+' half_past_five
unfolding is_digit
leap-IsStamp = record {
  day_digits = (refl, (refl, (refl, (refl, (refl, (refl, (refl, (refl, tt))))))));
  day_length = refl;
  time_digits = (refl, (refl, (refl, (refl, (refl, (refl, tt))))));
  time_length = refl;
  signed = refl;
  offset_digits = (refl, (refl, (refl, (refl, tt))));
  offset_length = refl;
}

-- The seconds from the first day of the year 1 to that instant in UTC.
leap_stamp_read :
    read_stamp (stamp_text leap_day last_second b'+' half_past_five) ≡ some 63844828199
unfolding read_stamp
leap_stamp_read = refl

object-IsTag : IsTag object
unfolding is_hex is_digit
object-IsTag = (
  (
    refl,
    (refl, (refl, (refl, (refl, (refl, (refl, (refl, (refl, (refl, (refl, (refl, tt))))))))))),
  ),
  refl,
)

digest-IsTag : (stream : Text) → IsTag (digest stream)
unfolding is_hex is_digit
digest-IsTag stream = (
  (
    refl,
    (refl, (refl, (refl, (refl, (refl, (refl, (refl, (refl, (refl, (refl, (refl, tt))))))))))),
  ),
  refl,
)

-- Ten seconds in slots of four, of which the first and the last are active.
abbrev five : Text
five = b'5' ∷ []

five_points :
    audio_points 10000 4 five
    ≡ record { offset = 0; duration = 4000 } ∷ record { offset = 8000; duration = 2000 } ∷ []
unfolding audio_points
five_points = refl

five-Of : Of is_hex five
unfolding is_hex is_digit
five-Of = (refl, tt)

-- A name of no archive.
no_name : parse_name (b'.' ∷ b't' ∷ b's' ∷ []) ≡ not_a_name
unfolding parse_name
no_name = refl

parse_name-file_name_example :
    parse_name (
      file_name
        (stamp_text leap_day last_second b'+' half_past_five)
        7
        10000
        (stream_tag digest (some []))
        (some (4, five))
        object
        true)
    ≡ parsed (record {
      start = 63844828199;
      duration = 10000;
      sequence = 7;
      stream_id = kept_stream digest (some []);
      object_id = object;
      audio_index = kept_audio 10000 (some (4, five));
      encrypted = true;
    })
parse_name-file_name_example =
    parse_name-file_name leap_day last_second b'+' half_past_five 63844828199 7 10000 digest
      (some []) object true leap-IsStamp leap_stamp_read (omega arith) (omega arith) digest-IsTag
      object-IsTag (some (4, five)) (omega arith, five-Of, omega arith, omega arith) (omega arith)

parse_name-zero_step_example :
    parse_name (
      file_name
        (stamp_text leap_day last_second b'+' half_past_five)
        7
        10000
        (stream_tag digest none)
        (some (0, five))
        object
        false)
    ≡ division_by_zero
parse_name-zero_step_example =
    parse_name-zero_step leap_day last_second b'+' half_past_five 63844828199 7 10000 digest none
      object false leap-IsStamp leap_stamp_read (omega arith) (omega arith) digest-IsTag
      object-IsTag five five-Of (omega arith) (omega arith)
