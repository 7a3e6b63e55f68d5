-- ===== src/Webdav/Paths.antt =====
-- storage.py: `_archive_sidecar_path` and `_partial_name`, of a recording's path, which ends in ".ts"
-- or ".ts.enc".
use camvault.Prelude.{◌-◌, [], ◌∷◌, ◌++◌, if◌then◌else◌, length, take}
use camvault.Read.Range.{Text}
use camvault.Archive.Names.Pattern.{ts_suffix, enc_suffix}
use camvault.Outbox.Paths.{ends_with}

-- ".json"
abbrev json_suffix : Text
json_suffix = b'.' ∷ b'j' ∷ b's' ∷ b'o' ∷ b'n' ∷ []

-- ".camvault-partial"
abbrev partial_suffix : Text
partial_suffix =
    b'.' ∷ b'c' ∷ b'a' ∷ b'm' ∷ b'v' ∷ b'a' ∷ b'u' ∷ b'l' ∷ b't' ∷ b'-' ∷ b'p' ∷ b'a' ∷ b'r' ∷ b't'
    ∷ b'i' ∷ b'a' ∷ b'l' ∷ []

unfoldable pub archive_sidecar_path : Text → Text
unfolding ends_with
archive_sidecar_path path =
    if ends_with (ts_suffix ++ enc_suffix) path
    then take (length path - 7) path ++ (json_suffix ++ enc_suffix)
    else take (length path - 3) path ++ json_suffix

unfoldable pub partial_name : Text → Text
partial_name path = path ++ partial_suffix
