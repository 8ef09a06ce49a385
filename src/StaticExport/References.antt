-- ===== src/StaticExport/References.antt =====
-- apps/local-server/src/static_export.rs: `scan_references`, what a file refers to.
pub mod Ends
use synapsegit_lp_studio.StaticExport.Css.{is_ascii_whitespace}
use synapsegit_lp_studio.ChangeSet.Markup.{is_quote}
use synapsegit_lp_studio.Prelude.{
  Bool, List, Option, [], false, if◌then◌else◌, length, list_eq, nat_eq, none, not, some, suc, true,
  zero, ℕ, ◌&&◌, ◌++◌, ◌+◌, ◌==◌, ◌||◌, ◌∷◌,
}
use synapsegit_lp_studio.Prelude.Text.{
  Text, codes, contains, contains_char, drop, ends_with, eq_ignore_ascii_case, find_text,
  is_ascii_digit, is_empty, is_one_of, is_whitespace, split, split_once, starts_with, take,
  to_ascii_lowercase, trim, trim_start,
}

-- `text_media_type_for_path` of this file
unfoldable pub export_media_type : Text → Option Text
unfolding to_ascii_lowercase ends_with
export_media_type path =
    let lower = to_ascii_lowercase path in
    if ends_with lower (codes ".html") || ends_with lower (codes ".htm")
    then some (codes "text/html")
    else if ends_with lower (codes ".css")
    then some (codes "text/css")
    else if ends_with lower (codes ".svg")
    then some (codes "image/svg+xml")
    else if ends_with lower (codes ".xml")
    then some (codes "application/xml")
    else if ends_with lower (codes ".js")
        || ends_with lower (codes ".mjs")
        || ends_with lower (codes ".cjs")
    then some (codes "text/javascript")
    else none

-- Declarations and sections that the bounded scanner does not read. A round ends the search with an
-- answer, or goes on in the rest.
pub data Boundary : Type 0 where
  boundary_found : (answer : Bool) → Boundary
  boundary_search : (rest : Text) → Boundary

unfoldable pub html_boundary_at : Text → Boundary
unfolding starts_with find_text drop
html_boundary_at at =
    if starts_with at (codes "<?") || starts_with at (codes "<![cdata[")
    then boundary_found true
    else if starts_with at (codes "<!--")
    then (elim (find_text (codes "-->") (drop 4 at)) [
      | none ↦ boundary_found true
      | some (comment, close) ↦ boundary_search (drop 3 close)
    ])
    else if starts_with at (codes "<!doctype html>")
    then boundary_search (drop 15 at)
    else if starts_with at (codes "<!")
    then boundary_found true
    else boundary_search (drop 1 at)

unfoldable pub html_boundary_from : ℕ → Text → Bool
unfolding find_text html_boundary_at
html_boundary_from zero lower = true
html_boundary_from (suc fuel) lower = elim (find_text (codes "<") lower) [
  | none ↦ false
  | some (before, at) ↦ elim (html_boundary_at at) [
    | boundary_found answer ↦ answer
    | boundary_search rest ↦ html_boundary_from fuel rest
  ]
]

unfoldable pub html_tokenizer_boundary_analysis_incomplete : Text → Bool
unfolding html_boundary_from to_ascii_lowercase
html_tokenizer_boundary_analysis_incomplete text =
    html_boundary_from (length text + 1) (to_ascii_lowercase text)

-- what stands behind the XML declaration, if there is one
unfoldable pub after_xml_declaration : Text → Option Text
unfolding starts_with find_text drop
after_xml_declaration remainder =
    if starts_with remainder (codes "<?xml")
    then (elim (find_text (codes "?>") remainder) [
      | none ↦ none
      | some (declaration, close) ↦ some (drop 2 close)
    ])
    else some remainder

unfoldable pub xml_external_boundary_analysis_incomplete : Text → Bool
unfolding contains to_ascii_lowercase trim_start after_xml_declaration
xml_external_boundary_analysis_incomplete text =
    let lower = to_ascii_lowercase text in
    if contains lower (codes "<!doctype")
    then true
    else elim (after_xml_declaration (trim_start lower)) [
      | none ↦ true
      | some remainder ↦ contains remainder (codes "<?")
    ]

unfoldable pub svg_presentation_reference_attribute : Text → Bool
unfolding is_one_of
svg_presentation_reference_attribute name = is_one_of name (
    codes "clip-path"
    ∷ codes "cursor"
    ∷ codes "fill"
    ∷ codes "filter"
    ∷ codes "marker"
    ∷ codes "marker-start"
    ∷ codes "marker-mid"
    ∷ codes "marker-end"
    ∷ codes "mask"
    ∷ codes "stroke"
    ∷ [])

abbrev pub is_obsolete_surface : Text → Bool
is_obsolete_surface name =
    is_one_of name (codes "archive" ∷ codes "codebase" ∷ codes "profile" ∷ [])

unfoldable pub character_reference_sensitive_attribute : Text → Text → Bool
unfolding is_one_of svg_presentation_reference_attribute
character_reference_sensitive_attribute tag_name name =
    is_one_of name (
      codes "src"
      ∷ codes "href"
      ∷ codes "xlink:href"
      ∷ codes "poster"
      ∷ codes "action"
      ∷ codes "formaction"
      ∷ codes "srcset"
      ∷ codes "imagesrcset"
      ∷ codes "ping"
      ∷ codes "background"
      ∷ codes "manifest"
      ∷ codes "style"
      ∷ codes "srcdoc"
      ∷ [])
    || svg_presentation_reference_attribute name
    || is_obsolete_surface name
    || tag_name == codes "object" && name == codes "data"
    || tag_name == codes "meta" && is_one_of name (codes "http-equiv" ∷ codes "content" ∷ [])

-- The words of a text: what stands between characters that pass the test.
unfoldable pub words_from : (ℕ → Bool) → Text → Text × List Text
words_from is_space [] = ([], [])
words_from is_space (c ∷ t) =
    let (word, words) = words_from is_space t in
    if is_space c then ([], if is_empty word then words else word ∷ words) else (c ∷ word, words)

unfoldable pub words : (ℕ → Bool) → Text → List Text
unfolding words_from
words is_space t =
    let (word, more) = words_from is_space t in if is_empty word then more else word ∷ more

abbrev pub first_word : List Text → List Text
first_word [] = []
first_word (word ∷ more) = word ∷ []

unfoldable pub first_words : List Text → List Text
unfolding words is_whitespace
first_words [] = []
first_words (candidate ∷ candidates) =
    first_word (words is_whitespace candidate) ++ first_words candidates

unfoldable pub srcset_references : Text → List Text
unfolding split first_words
srcset_references value = first_words (split b',' value)

-- The state of the scan for a delay: whether a point and whether a digit was seen.
unfoldable pub delay_from : Bool → Bool → Text → Bool
unfolding is_ascii_digit
delay_from point digit [] = digit
delay_from point digit (c ∷ t) =
    let rest = delay_from (point || c == b'.') (digit || is_ascii_digit c) t in
    if is_ascii_digit c || c == b'.' && not point then rest else false

unfoldable pub valid_meta_refresh_delay : Text → Bool
unfolding delay_from
valid_meta_refresh_delay value = delay_from false false value

-- What a refresh says: nothing that can be read, no reference, or one.
pub data Refresh : Type 0 where
  refresh_unclear refresh_plain : Refresh
  refresh_to : (reference : Text) → Refresh

abbrev pub refresh_quoted : Option (Text × Text) → Refresh
refresh_quoted none = refresh_unclear
refresh_quoted (some (reference, behind)) =
    if not (is_empty (trim behind)) || is_empty reference
    then refresh_unclear
    else refresh_to reference

-- What stands behind `url=`, with no blanks around it.
unfoldable pub refresh_reference : Text → Refresh
unfolding split_once trim contains_char
refresh_reference [] = refresh_unclear
refresh_reference (c ∷ t) =
    if is_quote c
    then refresh_quoted (split_once c t)
    else if contains_char (c ∷ t) b'\'' || contains_char (c ∷ t) b'"'
    then refresh_unclear
    else refresh_to (c ∷ t)

-- the character behind the keyword must be an ASCII blank or the equals sign
abbrev pub separates_keyword : Text → Bool
separates_keyword [] = true
separates_keyword (c ∷ t) = is_ascii_whitespace c || c == b'='

abbrev pub refresh_equals : Text → Refresh
refresh_equals [] = refresh_unclear
refresh_equals (c ∷ t) = if c == b'=' then refresh_reference (trim t) else refresh_unclear

unfoldable pub refresh_directive : Text → Refresh
unfolding take drop eq_ignore_ascii_case is_ascii_whitespace trim_start refresh_reference trim
refresh_directive directive =
    if not (eq_ignore_ascii_case (take 3 directive) (codes "url"))
      || not (separates_keyword (drop 3 directive))
    then refresh_unclear
    else refresh_equals (trim_start (drop 3 directive))

unfoldable pub meta_refresh_reference : Text → Refresh
unfolding trim split_once valid_meta_refresh_delay refresh_directive
meta_refresh_reference raw_value =
    let value = trim raw_value in
    elim (split_once b';' value) [
      | none ↦ if valid_meta_refresh_delay value then refresh_plain else refresh_unclear
      | some (delay, directive) ↦
          if valid_meta_refresh_delay (trim delay)
          then refresh_directive (trim directive)
          else refresh_unclear
    ]

abbrev pub attribute_named : Text → List (Text × Text) → Option Text
attribute_named name [] = none
attribute_named name ((n, value) ∷ attributes) =
    if n == name then some value else attribute_named name attributes
