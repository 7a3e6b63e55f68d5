-- ===== src/Archive/Names/Stamp.antt =====
-- archive.py, `parse_archive_filename`: `datetime.strptime(stamp, "%Y%m%dT%H%M%S%z")`, taken to UTC,
-- for a stamp of the pattern's shape. An instant is the number of seconds since the first day of the
-- year 1; one before it, or after the year 9999, is out of range.
use camvault.Prelude.{
  ℕ, ◌+◌, ◌-◌, ◌*◌, ◌/◌, ◌%◌, [], ◌∷◌, Bool, false, not, ◌&&◌, ◌||◌, Option, none, some,
  if◌then◌else◌, ltb, leb, ◌==◌, take, drop,
}
use camvault.Read.Range.{Text, to_number}

is_leap : ℕ → Bool
is_leap y = (y % 4 == 0) && (not (y % 100 == 0) || (y % 400 == 0))

-- Days of the months before month `m`, of a year that is no leap year.
days_before : ℕ → ℕ
days_before m =
    if leb m 1
    then 0
    else if m == 2
    then 31
    else if m == 3
    then 59
    else if m == 4
    then 90
    else if m == 5
    then 120
    else if m == 6
    then 151
    else if m == 7
    then 181
    else if m == 8
    then 212
    else if m == 9
    then 243
    else if m == 10
    then 273
    else if m == 11
    then 304
    else if m == 12
    then 334
    else 365

days_in_month : ℕ → ℕ → ℕ
unfolding days_before is_leap
days_in_month y m = days_before (m + 1) - days_before m + (if m == 2 && is_leap y then 1 else 0)

-- Days from the first of January of the year 1.
day_number : ℕ → ℕ → ℕ → ℕ
unfolding days_before is_leap
day_number y m d =
    let p = y - 1 in
    365 * p
    + p / 4
    - p / 100
    + p / 400
    + days_before m
    + (if ltb 2 m && is_leap y then 1 else 0)
    + (d - 1)

-- The first day of the year 10000.
abbrev day_limit : ℕ
day_limit = 3652059

pub record Fields : Type 0 where
  pub year : ℕ
  pub month : ℕ
  pub day : ℕ
  pub hour : ℕ
  pub minute : ℕ
  pub second : ℕ
  pub west : Bool
  pub offset_hours : ℕ
  pub offset_minutes : ℕ

field : ℕ → ℕ → Text → ℕ
unfolding to_number
field start size cs = to_number 0 (take size (drop start cs))

is_minus : Text → Bool
is_minus [] = false
is_minus (c ∷ cs) = c == b'-'

-- `YYYYmmddTHHMMSS+HHMM`
fields_of : Text → Fields
unfolding field is_minus
fields_of cs = record {
  year = field 0 4 cs;
  month = field 4 2 cs;
  day = field 6 2 cs;
  hour = field 9 2 cs;
  minute = field 11 2 cs;
  second = field 13 2 cs;
  west = is_minus (drop 15 cs);
  offset_hours = field 16 2 cs;
  offset_minutes = field 18 2 cs;
}

in_range : Fields → Bool
unfolding days_in_month
in_range f =
    leb 1 f.year
    && leb 1 f.month
    && leb f.month 12
    && leb 1 f.day
    && leb f.day (days_in_month f.year f.month)
    && ltb f.hour 24
    && ltb f.minute 60
    && ltb f.second 60
    && ltb f.offset_hours 24
    && ltb f.offset_minutes 60

-- `astimezone(UTC)`, with its `OverflowError`.
to_utc : Fields → Option ℕ
unfolding day_number
to_utc f =
    let local =
      86400 * day_number f.year f.month f.day + 3600 * f.hour + 60 * f.minute + f.second in
    let offset = 3600 * f.offset_hours + 60 * f.offset_minutes in
    if f.west
    then if ltb (local + offset) (86400 * day_limit) then some (local + offset) else none
    else if leb offset local
    then some (local - offset)
    else none

unfoldable pub read_stamp : Text → Option ℕ
unfolding fields_of in_range to_utc
read_stamp cs = let f = fields_of cs in if in_range f then to_utc f else none
