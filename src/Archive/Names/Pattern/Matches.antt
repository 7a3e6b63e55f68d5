-- ===== src/Archive/Names/Pattern/Matches.antt =====
-- A name in the pattern's shape matches it with its own parts.
use camvault.Prelude.{
  ℕ, zero, suc, ◌≤◌, ◌<◌, ◌≡◌, refl, [], ◌∷◌, ◌++◌, append_assoc, Bool, true, false, ◌||◌, Option,
  none, some, if◌then◌else◌, ◌==◌, length, arith, All, le→leb, Bool-cases, Option-cases, inl, inr,
}
use camvault.Read.Range.{Text, is_digit, without_prefix}
use camvault.Archive.Names.Pattern.{
  is_hex, exactly, run, match_stamp, match_start, match_stream, match_audio, optional_audio,
  match_end, match_name, in_length, underscore, ms_mark, no_stream, ts_suffix, enc_suffix,
}

abbrev pub Of : (ℕ → Bool) → Text → Type 0
Of test cs = All (λ c. test c ≡ true) cs

pub exactly-append :
    (test : ℕ → Bool) (n : ℕ) (xs rest : Text)
    → Of test xs
    → length xs ≡ n
    → exactly test n (xs ++ rest) ≡ some (xs, rest)
unfolding exactly
exactly-append test zero [] rest h e = refl
exactly-append test (suc n) [] rest h e = absurd (omega arith)
exactly-append test zero (x ∷ xs) rest h e = absurd (omega arith)
exactly-append test (suc n) (x ∷ xs) rest h e =
    rw (h.0, exactly-append test n xs rest h.1 (omega arith))

pub without_prefix-append : (p rest : Text) → without_prefix p (p ++ rest) ≡ some rest
unfolding without_prefix
without_prefix-append [] rest = refl
without_prefix-append (c ∷ p) rest = ground (arith, without_prefix-append p rest)

pub run-append :
    (test : ℕ → Bool) (xs : Text) (c : ℕ) (rest : Text)
    → Of test xs
    → test c ≡ false
    → run test (xs ++ c ∷ rest) ≡ (xs, c ∷ rest)
unfolding run
run-append test [] c rest h k = rw k
run-append test (x ∷ xs) c rest h k = rw (run-append test xs c rest h.1 k, h.0)

-- A stamp in the pattern's shape.
abbrev pub stamp_text : Text → Text → ℕ → Text → Text
stamp_text day time sign offset = day ++ b'T' ∷ (time ++ sign ∷ offset)

pub record IsStamp (day time : Text) (sign : ℕ) (offset : Text) : Type 0 where
  pub day_digits : Of is_digit day
  pub day_length : length day ≡ 8
  pub time_digits : Of is_digit time
  pub time_length : length time ≡ 6
  pub signed : (sign == b'+' || sign == b'-') ≡ true
  pub offset_digits : Of is_digit offset
  pub offset_length : length offset ≡ 4

pub match_stamp-append :
    (day time : Text) (sign : ℕ) (offset rest : Text)
    → IsStamp day time sign offset
    → match_stamp (stamp_text day time sign offset ++ rest)
      ≡ some (stamp_text day time sign offset, rest)
unfolding match_stamp
match_stamp-append day time sign offset rest s = rw (
  append_assoc day (b'T' ∷ (time ++ sign ∷ offset)) rest,
  exactly-append is_digit 8 day (b'T' ∷ ((time ++ sign ∷ offset) ++ rest)) s.day_digits
      s.day_length,
  append_assoc time (sign ∷ offset) rest,
  exactly-append is_digit 6 time (sign ∷ (offset ++ rest)) s.time_digits s.time_length,
  s.signed,
  exactly-append is_digit 4 offset rest s.offset_digits s.offset_length,
)

pub match_start-append :
    (stamp sequence duration rest : Text)
    → ((more : Text) → match_stamp (stamp ++ more) ≡ some (stamp, more))
    → Of is_digit sequence
    → length sequence ≡ 12
    → Of is_digit duration
    → length duration ≡ 9
    → match_start
        (stamp ++ (underscore ++ (sequence ++ (underscore ++ (duration ++ (ms_mark ++ rest))))))
      ≡ some ((stamp, sequence, duration), rest)
unfolding match_start without_prefix
match_start-append stamp sequence duration rest h s ls d ld = rw (
  h (underscore ++ (sequence ++ (underscore ++ (duration ++ (ms_mark ++ rest))))),
  exactly-append is_digit 12 sequence (underscore ++ (duration ++ (ms_mark ++ rest))) s ls,
  exactly-append is_digit 9 duration (ms_mark ++ rest) d ld,
)

-- The two stream tags.
pub match_stream_none : (rest : Text) → match_stream (no_stream ++ rest) ≡ some (no_stream, rest)
unfolding match_stream without_prefix
match_stream_none rest = refl

hex_ne : (v c : ℕ) → is_hex c ≡ true → b'f' < v → (v == c) ≡ false
unfolding is_hex is_digit
hex_ne v c h k = ground arith

not_no_stream :
    (c : ℕ) (rest : Text) → is_hex c ≡ true → without_prefix no_stream (b's' ∷ c ∷ rest) ≡ none
unfolding without_prefix
not_no_stream c rest h = let other : (b'n' == c) ≡ false = hex_ne b'n' c h (omega arith) in rw other

pub match_stream_tag :
    (tag rest : Text)
    → Of is_hex tag
    → length tag ≡ 12
    → match_stream (b's' ∷ (tag ++ rest)) ≡ some (b's' ∷ tag, rest)
unfolding match_stream
match_stream_tag [] rest h e = absurd (omega arith)
match_stream_tag (c ∷ cs) rest h e =
    rw (not_no_stream c (cs ++ rest) h.0, match_stream, exactly-append is_hex 12 (c ∷ cs) rest h e)

-- No `x` follows a run of digits within hexadecimal ones.
no_x :
    (cs : Text) (d : ℕ) (rest : Text)
    → Of is_hex cs
    → (b'x' == d) ≡ false
    → is_digit d ≡ false
    → without_prefix (b'x' ∷ []) (run is_digit (cs ++ d ∷ rest)).1 ≡ none
unfolding run without_prefix is_hex is_digit
no_x [] d rest h k n = rw n (rw k)
no_x (c ∷ cs) d rest h k n = elim (Bool-cases (is_digit c)) [
  | inl digit ↦ rw digit (no_x cs d rest h.1 k n)
  | inr letter ↦
      rw letter (let other : (b'x' == c) ≡ false = hex_ne b'x' c h.0 (omega arith) in rw other)
]

match_audio-none :
    (object rest : Text) → Of is_hex object → match_audio (object ++ b'.' ∷ rest) ≡ none
unfolding match_audio without_prefix
match_audio-none [] rest h = refl
match_audio-none (c ∷ cs) rest h = elim (Bool-cases (b'a' == c)) [
  | inr other ↦ rw other
  | inl same ↦ elim (Option-cases (in_length 1 4 (run is_digit (cs ++ b'.' ∷ rest)).0)) [
    | inl bad ↦ rw (same, bad)
    | inr (u, good) ↦ rw (same, good, no_x cs b'.' rest h.1 refl refl)
  ]
]

pub optional_audio-none :
    (object rest : Text)
    → Of is_hex object
    → optional_audio (object ++ b'.' ∷ rest) ≡ (none, object ++ b'.' ∷ rest)
unfolding optional_audio
optional_audio-none object rest h = rw (match_audio-none object rest h, optional_audio)

match_audio-some :
    (step bits rest : Text)
    → Of is_digit step
    → 1 ≤ length step
    → length step ≤ 4
    → Of is_hex bits
    → 1 ≤ length bits
    → length bits ≤ 64
    → match_audio (b'a' ∷ (step ++ (b'x' ∷ (bits ++ (b'_' ∷ rest))))) ≡ some ((step, bits), rest)
unfolding match_audio without_prefix in_length
match_audio-some step bits rest s ls ls' b lb lb' = rw (
  run-append is_digit step b'x' (bits ++ (b'_' ∷ rest)) s refl,
  le→leb 1 (length step) ls,
  le→leb (length step) 4 ls',
  run-append is_hex bits b'_' rest b refl,
  le→leb 1 (length bits) lb,
  le→leb (length bits) 64 lb',
)

pub optional_audio-some :
    (step bits rest : Text)
    → Of is_digit step
    → 1 ≤ length step
    → length step ≤ 4
    → Of is_hex bits
    → 1 ≤ length bits
    → length bits ≤ 64
    → optional_audio (b'a' ∷ (step ++ (b'x' ∷ (bits ++ (b'_' ∷ rest))))) ≡ (some (step, bits), rest)
unfolding optional_audio
optional_audio-some step bits rest s ls ls' b lb lb' =
    rw (match_audio-some step bits rest s ls ls' b lb lb', optional_audio)

pub match_end_enc :
    (encrypted : Bool) → match_end (if encrypted then enc_suffix else []) ≡ some encrypted
unfolding match_end without_prefix
match_end_enc true = refl
match_end_enc false = refl

-- The whole name, from its parts.
pub match_name-append :
    (stamp sequence duration stream audio_text object : Text) (audio : Option (Text × Text))
    (encrypted : Bool)
    → ((more : Text) → match_stamp (stamp ++ more) ≡ some (stamp, more))
    → Of is_digit sequence × (length sequence ≡ 12)
    → Of is_digit duration × (length duration ≡ 9)
    → ((more : Text) → match_stream (stream ++ more) ≡ some (stream, more))
    → ((more : Text)
        → optional_audio (audio_text ++ (object ++ b'.' ∷ more)) ≡ (audio, object ++ b'.' ∷ more))
    → Of is_hex object × (length object ≡ 12)
    → match_name (
        stamp
        ++ (underscore
            ++ (sequence
                ++ (underscore
                    ++ (duration
                        ++ (ms_mark
                            ++ (stream
                                ++ (underscore
                                    ++ (audio_text
                                        ++ (object
                                            ++ (ts_suffix
                                                ++ (if encrypted then enc_suffix else []))))))))))))
      ≡ some (record {
        stamp = stamp;
        sequence = sequence;
        duration = duration;
        stream = some stream;
        audio = audio;
        object = object;
        encrypted = encrypted;
      })
unfolding match_name
match_name-append stamp sequence duration stream audio_text object audio encrypted st sq du sr au
      ob =
    let end : Text = if encrypted then enc_suffix else [] in
    let last : Text = object ++ (ts_suffix ++ end) in
    rw (
      match_start-append stamp sequence duration (stream ++ (underscore ++ (audio_text ++ last))) st
          sq.0 sq.1 du.0 du.1,
      sr (underscore ++ (audio_text ++ last)),
      au (b't' ∷ b's' ∷ end),
      exactly-append is_hex 12 object (ts_suffix ++ end) ob.0 ob.1,
      match_end_enc encrypted,
    )
