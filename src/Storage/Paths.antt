-- ===== src/Storage/Paths.antt =====
-- apps/local-server/src/storage.rs: the paths, names and identifiers that the store takes.
pub mod Below
use synapsegit_lp_studio.ChangeSet.Types.{Crates, max_path_bytes, max_path_depth}
use synapsegit_lp_studio.ChangeSet.Path.{ends_with_blank_or_dot, windows_reserved}
use synapsegit_lp_studio.Prelude.{
  Bool, Option, Result, [], all, any, err, false, leb, length, list_eq, ltb, nat_eq, none, not,
  reject_if, some, true, ℕ, ◌&&◌, ◌==◌, ◌>>=◌, ◌>>◌, ◌||◌, ◌∷◌,
}
use synapsegit_lp_studio.Prelude.Text.{
  Text, as_bytes, codes, contains_char, is_ascii_digit, is_control, is_empty, is_whitespace, len,
  split, starts_with, strip_prefix, trim,
}

-- `StorageError`; an error of the file system is told by its text.
pub data StorageError : Type 0 where
  io : (message : Text) → StorageError
  corrupt drift unsafe_import import_limit : StorageError

abbrev pub Stored : Type 0 → Type 0
Stored = Result StorageError

abbrev pub max_project_display_name_code_points : ℕ
max_project_display_name_code_points = 256

abbrev pub max_project_display_name_bytes : ℕ
max_project_display_name_bytes = 1024

-- What `validate_canonical_path` refuses before it splits the path.
unfoldable pub is_unsafe_path : Crates → Text → Bool
unfolding contains_char starts_with
is_unsafe_path crates path =
    is_empty path
    || ltb max_path_bytes (len path)
    || contains_char path 0
    || contains_char path b'\\'
    || starts_with path (codes "/")
    || not (crates.nfc path == path)

unfoldable pub is_unsafe_segment : Text → Bool
unfolding ends_with_blank_or_dot any contains_char is_control windows_reserved
is_unsafe_segment segment =
    is_empty segment
    || segment == codes "."
    || segment == codes ".."
    || ends_with_blank_or_dot segment
    || any (λ c. is_control c || contains_char (codes "<>:\"|?*") c) segment
    || windows_reserved segment

unfoldable pub validate_canonical_path : Crates → Text → Stored Unit
validate_canonical_path crates path = do
  reject_if (is_unsafe_path crates path) unsafe_import
  reject_if (ltb max_path_depth (length (split b'/' path))) import_limit
  reject_if (any is_unsafe_segment (split b'/' path)) unsafe_import

abbrev pub is_boundary : ℕ → Bool
is_boundary c = is_whitespace c || c == b'(' || c == b'"' || c == b'\'' || c == b'='

abbrev pub at_boundary : Option ℕ → Bool
at_boundary none = true
at_boundary (some c) = is_boundary c

abbrev pub next_is : ℕ → Text → Bool
next_is c [] = false
next_is c (d ∷ t) = d == c

unfoldable pub is_ascii_alphabetic : ℕ → Bool
is_ascii_alphabetic c = leb b'A' c && leb c b'Z' || leb b'a' c && leb c b'z'

-- the character behind a drive letter and its colon
abbrev pub is_drive : Text → Bool
is_drive [] = false
is_drive (colon ∷ []) = false
is_drive (colon ∷ slash ∷ t) = colon == b':' && (slash == b'/' || slash == b'\\')

-- Whether an absolute path starts at this character.
unfoldable pub starts_absolute_path : Option ℕ → ℕ → Text → Bool
unfolding is_whitespace is_ascii_alphabetic
starts_absolute_path previous c t =
    c == b'/' && at_boundary previous && not (next_is b'/' t)
    || is_ascii_alphabetic c && is_drive t
    || c == b'\\' && next_is b'\\' t && at_boundary previous

unfoldable pub contains_absolute_path : Option ℕ → Text → Bool
contains_absolute_path previous [] = false
contains_absolute_path previous (c ∷ t) =
    starts_absolute_path previous c t || contains_absolute_path (some c) t

unfoldable pub validate_project_display_name : Crates → Text → Stored Unit
validate_project_display_name crates value =
    reject_if
      (ltb max_project_display_name_bytes (len value)
        || is_empty value
        || ltb max_project_display_name_code_points (length value)
        || is_empty (trim value)
        || not (crates.nfc value == value)
        || any is_control value
        || contains_absolute_path none value)
      corrupt

unfoldable pub is_hex_byte : ℕ → Bool
unfolding is_ascii_digit
is_hex_byte byte = is_ascii_digit byte || leb b'a' byte && leb byte b'f'

unfoldable pub validate_digits : ℕ → Text → Stored Unit
validate_digits n value =
    reject_if (not (len value == n) || not (all is_hex_byte (as_bytes value))) corrupt

unfoldable pub validate_identifier : Text → Text → Stored Unit
unfolding strip_prefix
validate_identifier value prefix = elim (strip_prefix value prefix) [
  | none ↦ err corrupt
  | some suffix ↦ validate_digits 32 suffix
]
