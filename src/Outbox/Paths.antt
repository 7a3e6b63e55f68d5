-- ===== src/Outbox/Paths.antt =====
-- storage.py: `_safe_webdav_relative` and `_safe_recording_relative`.
use camvault.Prelude.{
  ℕ, ◌+◌, List, [], ◌∷◌, ◌++◌, map, Bool, false, ◌&&◌, ◌||◌, Option, none, some, if◌then◌else◌, leb,
  ◌==◌, length, drop, ◌-◌, text_eq,
}
use camvault.Read.Range.{Text}
use camvault.Archive.Names.{Parsed, not_a_name, division_by_zero, parsed, parse_name}
use camvault.Archive.Names.Pattern.{ts_suffix, enc_suffix}

-- `replace("\\", "/")`
slashes : Text → Text
slashes cs = map (λ c. if c == b'\\' then b'/' else c) cs

lstrip_slashes : Text → Text
lstrip_slashes [] = []
lstrip_slashes (c ∷ cs) = if c == b'/' then lstrip_slashes cs else c ∷ cs

-- A slash is dropped where nothing but slashes follows it.
rstrip_slashes : Text → Text
rstrip_slashes [] = []
rstrip_slashes (c ∷ cs) =
    let rest = rstrip_slashes cs in if c == b'/' && length rest == 0 then [] else c ∷ rest

-- What stands before and after the first slash, and so on.
unfoldable pub split : Text → List Text
split [] = [] ∷ []
split (c ∷ cs) =
    let rest = split cs in
    if c == b'/'
    then [] ∷ rest
    else elim rest [ [] ↦ (c ∷ []) ∷ [] | part ∷ parts ↦ (c ∷ part) ∷ parts ]

abbrev dot : Text
dot = b'.' ∷ []

abbrev dots : Text
dots = b'.' ∷ b'.' ∷ []

-- The parts of a `PurePosixPath`: no empty one, and no dot.
unfoldable pub path_parts : List Text → List Text
path_parts [] = []
path_parts (p ∷ ps) =
    let rest = path_parts ps in if length p == 0 || text_eq p dot then rest else p ∷ rest

any_dots : List Text → Bool
any_dots [] = false
any_dots (p ∷ ps) = text_eq p dots || any_dots ps

-- `ValueError` is `none`. What is stripped is no absolute path.
unfoldable pub safe_webdav_relative : Text → Option (List Text)
unfolding slashes lstrip_slashes rstrip_slashes split path_parts any_dots
safe_webdav_relative value =
    let parts = path_parts (split (rstrip_slashes (lstrip_slashes (slashes value)))) in
    if any_dots parts then none else some parts

-- `str.lower`, of the ASCII letters: no other character becomes one of the suffixes' letters.
lower : ℕ → ℕ
lower c = if leb b'A' c && leb c b'Z' then c + 32 else c

unfoldable pub ends_with : Text → Text → Bool
ends_with suffix cs =
    leb (length suffix) (length cs) && text_eq (drop (length cs - length suffix) cs) suffix

unfoldable pub last_of : List Text → Text
last_of [] = []
last_of (p ∷ []) = p
last_of (p ∷ q ∷ ps) = last_of (q ∷ ps)

-- `ValueError`, the `ZeroDivisionError` of a name with a step of zero, or the path's parts.
pub data Checked : Type 0 where
  refused : Checked
  divided : Checked
  safe : List Text → Checked

named : List Text → Parsed → Checked
named parts not_a_name = refused
named parts division_by_zero = divided
named parts (parsed p) = safe parts

unfoldable pub safe_recording_relative : Text → Checked
unfolding safe_webdav_relative lower ends_with last_of named parse_name
safe_recording_relative value = elim (safe_webdav_relative value) [
  | none ↦ refused
  | some parts ↦
      if length parts == 5
        && (ends_with ts_suffix (map lower value)
            || ends_with (ts_suffix ++ enc_suffix) (map lower value))
      then named parts (parse_name (last_of parts))
      else refused
]
