-- ===== src/ChangeSet/Reference.antt =====
-- apps/local-server/src/change_set.rs: how a reference in a file is resolved inside the site.
pub mod Inside
use synapsegit_lp_studio.ChangeSet.Types.{Checked, Crates, invalid_local_reference}
use synapsegit_lp_studio.ChangeSet.Path.{validate_path}
use synapsegit_lp_studio.Prelude.{
  Bool, List, Option, [], any, err, if◌then◌else◌, leb, list_eq, nat_eq, none, ok, some, ℕ, ◌&&◌,
  ◌*◌, ◌++◌, ◌+◌, ◌-◌, ◌==◌, ◌>>=◌, ◌>>◌, ◌||◌, ◌∷◌,
}
use synapsegit_lp_studio.Prelude.Text.{
  Bytes, Text, as_bytes, codes, contains_char, is_empty, join, rsplit_once, split, starts_with,
  to_ascii_lowercase, trim, trim_start_matches,
}
use synapsegit_lp_studio.Prelude.Utf8.{from_utf8}

unfoldable pub hex_value : ℕ → Option ℕ
hex_value value =
    if leb b'0' value && leb value b'9'
    then some (value - b'0')
    else if leb b'a' value && leb value b'f'
    then some (value - b'a' + 10)
    else if leb b'A' value && leb value b'F'
    then some (value - b'A' + 10)
    else none

abbrev pub prepend : ℕ → Option Bytes → Option Bytes
prepend b none = none
prepend b (some bytes) = some (b ∷ bytes)

-- The loop of `percent_decode`; `none` is an invalid escape.
unfoldable pub percent_bytes : Bytes → Option Bytes
unfolding hex_value
percent_bytes [] = some []
percent_bytes (b ∷ c ∷ d ∷ rest) =
    let plain = percent_bytes (c ∷ d ∷ rest) in
    let escaped = percent_bytes rest in
    if b == b'%'
    then elim (hex_value c) [
      | none ↦ none
      | some high ↦ elim (hex_value d) [
        | none ↦ none
        | some low ↦ prepend (high * 16 + low) escaped
      ]
    ]
    else prepend b plain
percent_bytes (b ∷ rest) = if b == b'%' then none else prepend b (percent_bytes rest)

unfoldable pub percent_decode : Text → Checked Text
percent_decode value = elim (percent_bytes (as_bytes value)) [
  | none ↦ err invalid_local_reference
  | some decoded ↦ elim (from_utf8 decoded) [
    | none ↦ err invalid_local_reference
    | some text ↦ ok text
  ]
]

-- A reference that leaves the site, or stays on the page, is not resolved.
unfoldable pub is_not_local : Text → Bool
unfolding starts_with any to_ascii_lowercase
is_not_local reference =
    is_empty reference
    || starts_with reference (codes "#")
    || starts_with reference (codes "//")
    || any (λ scheme. starts_with (to_ascii_lowercase reference) scheme)
        (codes "http:"
          ∷ codes "https:"
          ∷ codes "data:"
          ∷ codes "mailto:"
          ∷ codes "tel:"
          ∷ codes "blob:"
          ∷ [])

unfoldable pub is_forbidden : Text → Bool
unfolding starts_with contains_char to_ascii_lowercase
is_forbidden reference =
    starts_with (to_ascii_lowercase reference) (codes "javascript:")
    || starts_with (to_ascii_lowercase reference) (codes "file:")
    || contains_char reference b'\\'

-- `reference.split(['?', '#']).next()`
unfoldable pub before_suffix : Text → Text
before_suffix [] = []
before_suffix (c ∷ t) =
    let rest = before_suffix t in if c == b'?' || c == b'#' then [] else c ∷ rest

-- `segments.pop()`
unfoldable pub pop : List Text → Option (List Text)
pop [] = none
pop (s ∷ []) = some []
pop (s ∷ t ∷ rest) = elim (pop (t ∷ rest)) [ none ↦ none | some kept ↦ some (s ∷ kept) ]

-- The segments of the directory that holds the source.
unfoldable pub directory_segments : Text → List Text
unfolding rsplit_once split
directory_segments source_path = elim (rsplit_once b'/' source_path) [
  | none ↦ []
  | some (directory, name) ↦ split b'/' directory
]

-- The loop over the segments of the reference.
unfoldable pub walk : List Text → List Text → Checked (List Text)
unfolding pop
walk segments [] = ok segments
walk segments (segment ∷ rest) =
    if is_empty segment || segment == codes "."
    then walk segments rest
    else if segment == codes ".."
    then (elim (pop segments) [ none ↦ err invalid_local_reference | some kept ↦ walk kept rest ])
    else walk (segments ++ segment ∷ []) rest

abbrev pub or_invalid_reference : Checked Unit → Checked Unit
or_invalid_reference (ok tt) = ok tt
or_invalid_reference (err e) = err invalid_local_reference

unfoldable pub finish_resolution : Crates → Text → Checked (Option Text)
finish_resolution crates resolved =
    if is_empty resolved
    then ok (some (codes "index.html"))
    else (do or_invalid_reference (validate_path crates resolved); ok (some resolved))

-- The part of `resolve_local_reference` behind the early returns.
unfoldable pub resolve_inside : Crates → Text → Text → Checked (Option Text)
resolve_inside crates source_path reference = do
  decoded ← percent_decode (before_suffix reference)
  let start = if starts_with decoded (codes "/") then [] else directory_segments source_path
  segments ← walk start (split b'/' (trim_start_matches (λ c. c == b'/') decoded))
  finish_resolution crates (crates.nfc (join (codes "/") segments))

unfoldable pub resolve_local_reference : Crates → Text → Text → Checked (Option Text)
resolve_local_reference crates source_path raw_reference =
    let reference = trim raw_reference in
    if is_not_local reference
    then ok none
    else if is_forbidden reference
    then err invalid_local_reference
    else resolve_inside crates source_path reference
