-- ===== src/StaticExport/Resolve.antt =====
-- apps/local-server/src/static_export.rs: `resolve_reference`, where a reference leads.
pub mod Below
pub mod Redacted
use synapsegit_lp_studio.StaticExport.{Exporting, unsafe_reference}
use synapsegit_lp_studio.StaticExport.Receipt.{
  ExternalReferenceV1, ReferenceResolution, external, ignored, local_file, runtime_only,
}
use synapsegit_lp_studio.Storage.Paths.{is_ascii_alphabetic, validate_canonical_path}
use synapsegit_lp_studio.ChangeSet.Types.{Crates, Url}
use synapsegit_lp_studio.ChangeSet.Reference.{
  before_suffix, directory_segments, percent_decode, walk,
}
use synapsegit_lp_studio.Prelude.{
  Bool, Option, [], all, any, err, false, if◌then◌else◌, is_some, list_eq, map_err, nat_eq, none,
  not, ok, some, true, ℕ, ◌&&◌, ◌++◌, ◌==◌, ◌>>=◌, ◌>>◌, ◌||◌, ◌∷◌,
}
use synapsegit_lp_studio.Prelude.Text.{
  Bytes, Text, as_bytes, codes, contains_char, is_ascii_alphanumeric, is_control, is_empty, join,
  split, split_once, starts_with, strip_prefix, to_ascii_lowercase, trim, trim_start_matches,
}

abbrev pub is_boundary_of_path : ℕ → Bool
is_boundary_of_path c = c == b'/' || c == b'?' || c == b'#'

abbrev pub is_scheme_byte : ℕ → Bool
is_scheme_byte byte = is_ascii_alphanumeric byte || byte == b'+' || byte == b'-' || byte == b'.'

-- the loop over the bytes before the colon
unfoldable pub is_scheme : Bytes → Bool
unfolding is_ascii_alphabetic all is_ascii_alphanumeric
is_scheme [] = true
is_scheme (byte ∷ bytes) = is_ascii_alphabetic byte && all is_scheme_byte bytes

unfoldable pub has_explicit_scheme : Text → Bool
unfolding split_once any as_bytes is_scheme
has_explicit_scheme reference = elim (split_once b':' reference) [
  | none ↦ false
  | some (before, behind) ↦ not (any is_boundary_of_path before) && is_scheme (as_bytes before)
]

abbrev pub strip_https : Text → Text
strip_https t = elim (strip_prefix t (codes "https:")) [ none ↦ t | some rest ↦ rest ]

abbrev pub is_nonempty : Text → Bool
is_nonempty t = not (is_empty t)

abbrev pub or_unsafe : {A : Type 0} → Text → Option A → Exporting A
or_unsafe source_path none = err (unsafe_reference source_path)
or_unsafe source_path (some a) = ok a

-- The calls that take the user information, the query and the fragment from the URL.
unfoldable pub redacted : Crates → Text → Url → Exporting Url
redacted crates source_path url = do
  nameless ← or_unsafe source_path (crates.set_username [] url)
  bare ← or_unsafe source_path (crates.set_password none nameless)
  ok (crates.set_fragment none (crates.set_query none bare))

-- What the receipt says of a URL: of the parts that were redacted, that they were there.
abbrev pub shown : Crates → Text → Bool → Url → Url → ExternalReferenceV1
shown crates source_path protocol_relative url bare = record {
  source_path = source_path;
  sanitized_url =
      if protocol_relative then strip_https (crates.as_str bare) else crates.as_str bare;
  origin = if protocol_relative then strip_https bare.origin else bare.origin;
  userinfo_redacted = is_nonempty url.username || is_some url.password;
  query_redacted = is_some url.query;
  fragment_redacted = is_some url.fragment;
}

abbrev pub is_web : Text → Bool
is_web scheme = scheme == codes "http" || scheme == codes "https"

unfoldable pub external_of : Crates → Text → Bool → Option Url → Exporting ExternalReferenceV1
unfolding redacted strip_prefix
external_of crates source_path protocol_relative none = err (unsafe_reference source_path)
external_of crates source_path protocol_relative (some url) =
    if not (is_web url.scheme) || not (is_some url.host_str)
    then err (unsafe_reference source_path)
    else (do
      bare ← redacted crates source_path url
      ok (shown crates source_path protocol_relative url bare))

unfoldable pub external_reference : Crates → Text → Text → Bool → Exporting ExternalReferenceV1
unfolding external_of
external_reference crates source_path reference protocol_relative =
    external_of crates source_path protocol_relative
      (crates.parse_url (if protocol_relative then codes "https:" ++ reference else reference))

unfoldable pub is_ignored : Text → Bool
unfolding starts_with
is_ignored reference = is_empty reference || starts_with reference (codes "#")

unfoldable pub is_unsafe_reference : Text → Bool
unfolding any is_control contains_char starts_with to_ascii_lowercase
is_unsafe_reference reference =
    any is_control reference
    || contains_char reference b'\\'
    || starts_with (to_ascii_lowercase reference) (codes "javascript:")
    || starts_with (to_ascii_lowercase reference) (codes "file:")

unfoldable pub is_data_scheme : Text → Bool
unfolding starts_with any
is_data_scheme lower = any (starts_with lower) (codes "data:" ∷ codes "mailto:" ∷ codes "tel:" ∷ [])

unfoldable pub local_path : Crates → Text → Text → Exporting Text
local_path crates source_path resolved = if is_empty resolved then ok (codes "index.html") else do
  map_err (λ e. unsafe_reference source_path) (validate_canonical_path crates resolved)
  ok resolved

-- The part of `resolve_reference` that decodes a path and walks along it.
unfoldable pub resolve_path : Crates → Text → Text → Exporting Text
unfolding local_path starts_with trim_start_matches split join
resolve_path crates source_path without_suffix = do
  decoded ← map_err (λ e. unsafe_reference source_path) (percent_decode without_suffix)
  let start = if starts_with decoded (codes "/") then [] else directory_segments source_path
  segments ←
      map_err (λ e. unsafe_reference source_path)
        (walk start (split b'/' (trim_start_matches (λ c. c == b'/') decoded)))
  local_path crates source_path (crates.nfc (join (codes "/") segments))

-- The part behind the schemes.
unfoldable pub resolve_local : Crates → Text → Text → Exporting Text
unfolding before_suffix resolve_path
resolve_local crates source_path reference =
    let without_suffix = before_suffix reference in
    if is_empty without_suffix
    then ok source_path
    else resolve_path crates source_path without_suffix

abbrev pub to_external : Exporting ExternalReferenceV1 → Exporting ReferenceResolution
to_external (err e) = err e
to_external (ok reference) = ok (external reference)

abbrev pub to_local : Exporting Text → Exporting ReferenceResolution
to_local (err e) = err e
to_local (ok path) = ok (local_file path)

unfoldable pub resolve_scheme : Crates → Text → Text → Exporting ReferenceResolution
unfolding to_ascii_lowercase starts_with is_data_scheme has_explicit_scheme
resolve_scheme crates source_path reference =
    let lower = to_ascii_lowercase reference in
    if starts_with lower (codes "http:") || starts_with lower (codes "https:")
    then to_external (external_reference crates source_path reference false)
    else if starts_with reference (codes "//")
    then to_external (external_reference crates source_path reference true)
    else if starts_with lower (codes "blob:")
    then ok runtime_only
    else if is_data_scheme lower
    then ok ignored
    else if has_explicit_scheme reference
    then err (unsafe_reference source_path)
    else to_local (resolve_local crates source_path reference)

unfoldable pub resolve_reference : Crates → Text → Text → Exporting ReferenceResolution
unfolding trim is_ignored is_unsafe_reference
resolve_reference crates source_path raw_reference =
    let reference = trim raw_reference in
    if is_ignored reference
    then ok ignored
    else if is_unsafe_reference reference
    then err (unsafe_reference source_path)
    else resolve_scheme crates source_path reference
