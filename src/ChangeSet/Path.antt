-- ===== src/ChangeSet/Path.antt =====
-- apps/local-server/src/change_set.rs: which paths, media types and hashes are accepted.
pub mod Below
use synapsegit_lp_studio.ChangeSet.Types.{
  Checked, Crates, invalid_hash, max_path_bytes, max_path_depth, reserved, unsafe_path,
  unsupported_media_type,
}
use synapsegit_lp_studio.Prelude.{
  Bool, List, Option, [], all, any, err, false, if◌then◌else◌, leb, length, list_eq, ltb, nat_eq,
  none, not, reject_if, some, ℕ, ◌%◌, ◌&&◌, ◌+◌, ◌-◌, ◌/◌, ◌==◌, ◌>>=◌, ◌>>◌, ◌||◌, ◌∷◌,
}
use synapsegit_lp_studio.Prelude.Text.{
  Bytes, Text, as_bytes, codes, contains_char, ends_with, eq_ignore_ascii_case, first_or_empty,
  is_ascii_digit, is_control, is_empty, is_one_of, last_or_empty, len, rsplit_once, split,
  starts_with, strip_prefix, to_ascii_lowercase,
}

-- `str::to_lowercase`
unfoldable pub to_lowercase : Crates → Text → Text
to_lowercase crates t =
    if all (λ c. ltb c 0x80) t then to_ascii_lowercase t else crates.unicode_lowercase t

-- `byte` as two hexadecimal digits, and a digest as a text of them
abbrev hex_digit : ℕ → ℕ
hex_digit n = if ltb n 10 then b'0' + n else b'a' + (n - 10)

unfoldable pub hex : Bytes → Text
hex [] = []
hex (b ∷ bs) = hex_digit (b / 16) ∷ hex_digit (b % 16) ∷ hex bs

unfoldable pub sha256 : Crates → Bytes → Text
unfolding hex
sha256 crates bytes = hex (crates.digest bytes)

abbrev pub folded_path : Crates → Text → Text
folded_path crates path = crates.folded path

unfoldable pub is_disallowed_control : ℕ → Bool
unfolding is_control
is_disallowed_control c = is_control c && not (c == b'\n' || c == b'\r' || c == b'\t')

unfoldable pub is_device_number : Text → Bool
unfolding is_one_of
is_device_number suffix = is_one_of suffix (
    codes "1"
    ∷ codes "2"
    ∷ codes "3"
    ∷ codes "4"
    ∷ codes "5"
    ∷ codes "6"
    ∷ codes "7"
    ∷ codes "8"
    ∷ codes "9"
    ∷ [])

unfoldable pub windows_reserved : Text → Bool
unfolding split to_ascii_lowercase is_one_of strip_prefix is_device_number
windows_reserved segment =
    let stem = to_ascii_lowercase (first_or_empty (split b'.' segment)) in
    is_one_of stem (codes "con" ∷ codes "prn" ∷ codes "aux" ∷ codes "nul" ∷ [])
    || elim (strip_prefix stem (codes "com")) [
      | some suffix ↦ is_device_number suffix
      | none ↦ elim (strip_prefix stem (codes "lpt")) [
        | some suffix ↦ is_device_number suffix
        | none ↦ false
      ]
    ]

unfoldable pub reserved_path : Crates → Text → Bool
unfolding to_lowercase split is_one_of any last_or_empty starts_with ends_with
reserved_path crates path =
    let segments = split b'/' (to_lowercase crates path) in
    let name = last_or_empty segments in
    any
      (λ segment.
        is_one_of segment (codes ".studio" ∷ codes ".git" ∷ codes ".ssh" ∷ codes ".aws" ∷ []))
      segments
    || name == codes ".env"
    || starts_with name (codes ".env.")
    || is_one_of name (codes ".envrc" ∷ codes ".netrc" ∷ codes ".npmrc" ∷ codes ".pypirc" ∷ [])
    || ends_with name (codes ".pem")
    || ends_with name (codes ".key")
    || is_one_of name
        (codes "id_rsa" ∷ codes "id_ed25519" ∷ codes "credentials" ∷ codes "credentials.json" ∷ [])

unfoldable pub ends_with_blank_or_dot : Text → Bool
ends_with_blank_or_dot [] = false
ends_with_blank_or_dot (c ∷ []) = c == b' ' || c == b'.'
ends_with_blank_or_dot (c ∷ d ∷ t) = ends_with_blank_or_dot (d ∷ t)

-- What the loop over the segments rejects.
unfoldable pub unsafe_segment : Text → Bool
unsafe_segment segment =
    is_empty segment
    || segment == codes "."
    || segment == codes ".."
    || ends_with_blank_or_dot segment
    || any (λ c. contains_char (codes "<>:\"|?*") c) segment
    || windows_reserved segment

-- What is rejected before the path is split.
unfoldable pub unsafe_text : Crates → Text → Bool
unsafe_text crates path =
    is_empty path
    || ltb max_path_bytes (len path)
    || starts_with path (codes "/")
    || contains_char path b'\\'
    || not (crates.nfc path == path)
    || any is_control path

unfoldable pub validate_path : Crates → Text → Checked Unit
validate_path crates path = do
  reject_if (unsafe_text crates path) unsafe_path
  let segments = split b'/' path
  reject_if (ltb max_path_depth (length segments)) unsafe_path
  reject_if (any unsafe_segment segments) unsafe_path
  reject_if (reserved_path crates path) reserved

unfoldable pub extension : Text → Option Text
unfolding rsplit_once
extension path = elim (rsplit_once b'.' path) [
  | none ↦ none
  | some (stem, ext) ↦ if is_empty ext then none else some ext
]

unfoldable pub matches_ignore_ascii_case : Text → List Text → Bool
unfolding any eq_ignore_ascii_case
matches_ignore_ascii_case value choices = any (eq_ignore_ascii_case value) choices

unfoldable pub media_type_of : Text → Option Text
unfolding matches_ignore_ascii_case eq_ignore_ascii_case
media_type_of ext =
    if matches_ignore_ascii_case ext (codes "html" ∷ codes "htm" ∷ [])
    then some (codes "text/html")
    else if eq_ignore_ascii_case ext (codes "css")
    then some (codes "text/css")
    else if matches_ignore_ascii_case ext (codes "js" ∷ codes "mjs" ∷ codes "cjs" ∷ [])
    then some (codes "application/javascript")
    else if matches_ignore_ascii_case ext (codes "json" ∷ codes "map" ∷ [])
    then some (codes "application/json")
    else if eq_ignore_ascii_case ext (codes "webmanifest")
    then some (codes "application/manifest+json")
    else if eq_ignore_ascii_case ext (codes "svg")
    then some (codes "image/svg+xml")
    else if eq_ignore_ascii_case ext (codes "xml")
    then some (codes "application/xml")
    else if eq_ignore_ascii_case ext (codes "txt")
    then some (codes "text/plain")
    else if eq_ignore_ascii_case ext (codes "csv")
    then some (codes "text/csv")
    else none

unfoldable pub text_media_type_for_path : Text → Option Text
unfolding extension media_type_of
text_media_type_for_path path = elim (extension path) [ none ↦ none | some ext ↦ media_type_of ext ]

unfoldable pub validate_text_media_type : Text → Text → Checked Unit
unfolding text_media_type_for_path
validate_text_media_type path media_type = elim (text_media_type_for_path path) [
  | none ↦ err unsupported_media_type
  | some expected ↦ reject_if (not (expected == media_type)) unsupported_media_type
]

unfoldable pub validate_hash : Text → Checked Unit
unfolding len all is_ascii_digit
validate_hash value =
    reject_if
      (not (
        len value == 64
        && all (λ byte. is_ascii_digit byte || leb b'a' byte && leb byte b'f') (as_bytes value)))
      invalid_hash
