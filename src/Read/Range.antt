-- ===== src/Read/Range.antt =====
-- storage.py: `_resolve_byte_range`. A header value is a list of Latin-1 code points, as the server
-- hands it over; there `\d` is the ASCII digits. Python refuses to read a number of more than 4300
-- digits; that limit of the interpreter is not modelled.
pub mod Resolved
use camvault.Prelude.{
  ℕ, ◌+◌, ◌-◌, ◌*◌, List, [], ◌∷◌, Bool, true, false, ◌&&◌, ◌||◌, Option, none, some, min, ltb, leb,
  ◌==◌, if◌then◌else◌, length,
}

abbrev pub Text : Type 0
Text = List ℕ

-- What `str.strip` takes off.
unfoldable pub is_space : ℕ → Bool
is_space c = (leb 9 c && leb c 13) || (leb 28 c && leb c 32) || c == 133 || c == 160

unfoldable pub is_digit : ℕ → Bool
is_digit c = leb b'0' c && leb c b'9'

lstrip : Text → Text
lstrip [] = []
lstrip (c ∷ cs) = if is_space c then lstrip cs else c ∷ cs

-- A space is dropped where nothing but spaces follows it.
rstrip : Text → Text
rstrip [] = []
rstrip (c ∷ cs) = let rest = rstrip cs in if is_space c && length rest == 0 then [] else c ∷ rest

unfoldable pub strip : Text → Text
unfolding lstrip rstrip is_space
strip cs = rstrip (lstrip cs)

-- The longest prefix of digits, and what follows it.
unfoldable pub digits : Text → Text × Text
digits [] = ([], [])
digits (c ∷ cs) = let (ds, rest) = digits cs in if is_digit c then (c ∷ ds, rest) else ([], c ∷ cs)

unfoldable pub to_number : ℕ → Text → ℕ
to_number acc [] = acc
to_number acc (d ∷ ds) = to_number (acc * 10 + (d - b'0')) ds

unfoldable pub without_prefix : Text → Text → Option Text
without_prefix [] cs = some cs
without_prefix (p ∷ ps) [] = none
without_prefix (p ∷ ps) (c ∷ cs) = if p == c then without_prefix ps cs else none

-- "bytes="
abbrev pub unit_name : Text
unit_name = 98 ∷ 121 ∷ 116 ∷ 101 ∷ 115 ∷ 61 ∷ []

second_group : Text → Text × Text → Option (Text × Text)
second_group first (last, []) = some (first, last)
second_group first (last, c ∷ rest) = none

first_group : Text × Text → Option (Text × Text)
unfolding second_group digits
first_group (first, []) = none
first_group (first, c ∷ rest) = if c == b'-' then second_group first (digits rest) else none

-- `re.fullmatch(r"bytes=(\d*)-(\d*)", …)`: the two groups. Digits and `-` do not overlap, so the
-- greedy groups are the only match.
unfoldable pub match_range : Text → Option (Text × Text)
unfolding first_group without_prefix
match_range cs = elim (without_prefix unit_name cs) [
  | none ↦ none
  | some rest ↦ first_group (digits rest)
]

pub record Selected : Type 0 where
  pub status : ℕ
  pub start : ℕ
  pub last : ℕ

-- `start-end`, `start-` and `-suffix`, in the order of the source's tests.
select : ℕ → Text × Text → Option Selected
select size ([], []) = none
select size ([], d ∷ ds) =
    let suffix = to_number 0 (d ∷ ds) in
    if suffix == 0
    then none
    else some (record { status = 206; start = size - suffix; last = size - 1 })
select size (c ∷ cs, ds) =
    let start = to_number 0 (c ∷ cs) in
    let last = if length ds == 0 then size - 1 else to_number 0 ds in
    if leb size start || ltb last start
    then none
    else some (record { status = 206; start = start; last = min last (size - 1) })

unfoldable pub resolve_byte_range : Option Text → ℕ → Option Selected
unfolding select to_number match_range
resolve_byte_range value size = if size == 0 then none else elim value [
  | none ↦ some (record { status = 200; start = 0; last = size - 1 })
  | some text ↦ elim (match_range (strip text)) [ none ↦ none | some groups ↦ select size groups ]
]
