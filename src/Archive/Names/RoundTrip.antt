-- ===== src/Archive/Names/RoundTrip.antt =====
-- A file name that is written is parsed with its own parts.
use camvault.Prelude.{
  ℕ, ◌≤◌, ◌<◌, ◌^◌, ◌≡◌, refl, ap, ◌∙◌, List, [], ◌∷◌, ◌++◌, append_assoc, Bool, false, Option,
  none, some, length, arith, text_eq,
}
use camvault.Read.Range.{Text, to_number}
use camvault.Archive.Names.{
  parsed, division_by_zero, parse_name, file_name, stream_tag, stream_id_of, audio_tag,
  audio_points, padded, AudioPoint, match_result, or_else, from_match, with_audio, parsed_of,
  tag_prefix,
}
use camvault.Archive.Names.Stamp.{read_stamp}
use camvault.Archive.Names.Pattern.{
  is_hex, Captured, match_name, match_stream, optional_audio, underscore, no_stream,
}
use camvault.Archive.Names.Pattern.Matches.{
  Of, IsStamp, stamp_text, match_stamp-append, match_name-append, match_stream_none,
  match_stream_tag, optional_audio-none, optional_audio-some,
}
use camvault.Archive.Names.Decimal.{
  to_number-padded, padded-Of, length-padded, length-padded_ge, length-padded_le,
}

abbrev pub IsTag : Text → Type 0
IsTag tag = Of is_hex tag × (length tag ≡ 12)

stream_reads :
    (digest : Text → Text) (stream : Option Text)
    → ((s : Text) → IsTag (digest s))
    → (more : Text)
    → match_stream (stream_tag digest stream ++ more) ≡ some (stream_tag digest stream, more)
unfolding stream_tag
stream_reads digest none h more = match_stream_none more
stream_reads digest (some s) h more = match_stream_tag (digest s) more (h s).0 (h s).1

-- What the name keeps of a stream's name.
abbrev pub kept_stream : (Text → Text) → Option Text → Option Text
kept_stream digest none = none
kept_stream digest (some s) = some (tag_prefix ++ digest s)

no_hex_tag : (tag : Text) → IsTag tag → text_eq (b's' ∷ tag) no_stream ≡ false
no_hex_tag [] h = refl
no_hex_tag (c ∷ []) h = absurd (omega (arith, h.1))
no_hex_tag (c ∷ d ∷ []) h = absurd (omega (arith, h.1))
no_hex_tag (c ∷ d ∷ e ∷ []) h = absurd (omega (arith, h.1))
no_hex_tag (c ∷ d ∷ e ∷ f ∷ []) h = absurd (omega (arith, h.1))
no_hex_tag (c ∷ d ∷ e ∷ f ∷ g ∷ cs) h = ground arith

stream_id_of-stream_tag :
    (digest : Text → Text) (stream : Option Text)
    → ((s : Text) → IsTag (digest s))
    → stream_id_of (some (stream_tag digest stream)) ≡ kept_stream digest stream
unfolding stream_id_of stream_tag
stream_id_of-stream_tag digest none h = refl
stream_id_of-stream_tag digest (some s) h = rw (no_hex_tag (digest s) (h s))

-- What the pattern captures of an audio tag.
abbrev pub captured_audio : Option (ℕ × Text) → Option (Text × Text)
captured_audio none = none
captured_audio (some (step, bits)) = some (padded 1 step, bits)

audio_text :
    (step : ℕ) (bits more : Text)
    → audio_tag (some (step, bits)) ++ more
      ≡ b'a' ∷ (padded 1 step ++ (b'x' ∷ (bits ++ (b'_' ∷ more))))
unfolding audio_tag
audio_text step bits more = rw (
  append_assoc (padded 1 step) (b'x' ∷ (bits ++ underscore)) more,
  append_assoc bits underscore more,
)

-- The step may also be zero here.
abbrev pub AudioShape : Option (ℕ × Text) → Type 0
AudioShape none = Unit {0}
AudioShape (some (step, bits)) =
    (step < 10000) × Of is_hex bits × (1 ≤ length bits) × (length bits ≤ 64)

audio_reads :
    (audio : Option (ℕ × Text)) (object more : Text)
    → AudioShape audio
    → Of is_hex object
    → optional_audio (audio_tag audio ++ (object ++ b'.' ∷ more))
      ≡ (captured_audio audio, object ++ b'.' ∷ more)
audio_reads none object more h ob = unfold audio_tag in optional_audio-none object more ob
audio_reads (some (step, bits)) object more h ob =
    ap optional_audio (audio_text step bits (object ++ b'.' ∷ more))
    ∙ optional_audio-some (padded 1 step) bits (object ++ b'.' ∷ more) (padded-Of 1 step)
        (length-padded_ge 1 step) (length-padded_le 1 4 step (omega arith) (omega arith) h.0) h.1
        h.2 h.3

-- The written name matches the pattern.
matched :
    (day time : Text) (sign : ℕ) (offset : Text) (sequence duration : ℕ) (digest : Text → Text)
    (stream : Option Text) (audio : Option (ℕ × Text)) (object : Text) (encrypted : Bool)
    → IsStamp day time sign offset
    → sequence < 10 ^ 12
    → duration < 10 ^ 9
    → ((s : Text) → IsTag (digest s))
    → AudioShape audio
    → IsTag object
    → match_name (
        file_name
          (stamp_text day time sign offset)
          sequence
          duration
          (stream_tag digest stream)
          audio
          object
          encrypted)
      ≡ some (record {
        stamp = stamp_text day time sign offset;
        sequence = padded 12 sequence;
        duration = padded 9 duration;
        stream = some (stream_tag digest stream);
        audio = captured_audio audio;
        object = object;
        encrypted = encrypted;
      })
unfolding file_name
matched day time sign offset sequence duration digest stream audio object encrypted st sq du dg au
      ob =
    match_name-append (stamp_text day time sign offset) (padded 12 sequence) (padded 9 duration)
      (stream_tag digest stream) (audio_tag audio) object (captured_audio audio) encrypted
      (λ more. match_stamp-append day time sign offset more st)
      (padded-Of 12 sequence, length-padded 12 sequence (omega arith) sq)
      (padded-Of 9 duration, length-padded 9 duration (omega arith) du)
      (stream_reads digest stream dg) (λ more. audio_reads audio object more au ob.0) ob

abbrev pub StepFits : Option (ℕ × Text) → Type 0
StepFits none = Unit {0}
StepFits (some (step, bits)) = 1 ≤ step

-- The activity that a name's audio tag stands for.
abbrev pub kept_audio : ℕ → Option (ℕ × Text) → List AudioPoint
kept_audio duration none = []
kept_audio duration (some (step, bits)) = audio_points duration step bits

with_audio_captured :
    (m : Captured) (start duration : ℕ) (audio : Option (ℕ × Text))
    → StepFits audio
    → with_audio m start duration (captured_audio audio)
      ≡ parsed_of m start duration (kept_audio duration audio)
unfolding with_audio
with_audio_captured m start duration none h = refl
with_audio_captured m start duration (some (step, bits)) h =
    rw (to_number-padded 1 step, with_audio) (ground arith)

parse_name_matched :
    (cs : Text) (m : Captured) (start : ℕ)
    → match_name cs ≡ some m
    → read_stamp m.stamp ≡ some start
    → parse_name cs ≡ with_audio m start (to_number 0 m.duration) m.audio
unfolding parse_name match_result or_else from_match
parse_name_matched cs m start h e = rw (h, or_else, match_result, from_match, e)

module _ (day time : Text) (sign : ℕ) (offset : Text) (start : ℕ) (sequence duration : ℕ)
    (digest : Text → Text) (stream : Option Text) (object : Text) (encrypted : Bool)
    (stamped : IsStamp day time sign offset)
    (reads : read_stamp (stamp_text day time sign offset) ≡ some start)
    (sequence_fits : sequence < 10 ^ 12) (duration_fits : duration < 10 ^ 9)
    (digests : (s : Text) → IsTag (digest s)) (object_fits : IsTag object) where
  -- A name written for a stamp that is read as an instant, a sequence below 10 to the 12, a duration
  -- below 10 to the 9, an audio tag with a step from 1 to 9999 and 1 to 64 digits, or none, and tags
  -- of twelve digits is parsed with the same instant, sequence, duration, object and encryption, the
  -- stream's digest, and the activity of the audio tag.
  pub parse_name-file_name :
      (audio : Option (ℕ × Text))
      → AudioShape audio
      → StepFits audio
      → parse_name (
          file_name
            (stamp_text day time sign offset)
            sequence
            duration
            (stream_tag digest stream)
            audio
            object
            encrypted)
        ≡ parsed (record {
          start = start;
          duration = duration;
          sequence = sequence;
          stream_id = kept_stream digest stream;
          object_id = object;
          audio_index = kept_audio duration audio;
          encrypted = encrypted;
        })
  unfolding parsed_of
  parse_name-file_name audio au fits =
      parse_name_matched _ _ start
        (matched day time sign offset sequence duration digest stream audio object encrypted stamped
          sequence_fits duration_fits digests au object_fits)
        reads
      ∙ with_audio_captured _ start (to_number 0 (padded 9 duration)) audio fits
      ∙ rw (
        to_number-padded 9 duration,
        to_number-padded 12 sequence,
        stream_id_of-stream_tag digest stream digests,
      )

  -- A name with an audio step of zero, its other parts as they are written, is not rejected with
  -- `None`: the division by its step raises an exception that `parse_archive_filename` does not take.
  pub parse_name-zero_step :
      (bits : Text)
      → Of is_hex bits
      → 1 ≤ length bits
      → length bits ≤ 64
      → parse_name (
          file_name
            (stamp_text day time sign offset)
            sequence
            duration
            (stream_tag digest stream)
            (some (0, bits))
            object
            encrypted)
        ≡ division_by_zero
  unfolding with_audio
  parse_name-zero_step bits hex short long =
      parse_name_matched _ _ start
        (matched day time sign offset sequence duration digest stream (some (0, bits)) object
          encrypted stamped sequence_fits duration_fits digests (omega arith, hex, short, long)
          object_fits)
        reads
      ∙ rw (to_number-padded 1 0)
