-- ===== src/ChangeSet/Markup.antt =====
-- apps/local-server/src/change_set.rs: the scanner for markup. A cursor into the text is the rest of
-- the text from there on, and a `while` loop takes as fuel more than that rest's length.
pub mod Ends
pub mod RawText
pub mod FirstEnd
pub mod Attributes
pub mod Written
use synapsegit_lp_studio.ChangeSet.Types.{Crates}
use synapsegit_lp_studio.ChangeSet.Path.{sha256}
use synapsegit_lp_studio.Prelude.{
  Bool, List, Option, [], all, any, false, if◌then◌else◌, length, list_eq, nat_eq, none, not, some,
  suc, true, zero, ℕ, ◌&&◌, ◌++◌, ◌+◌, ◌==◌, ◌||◌, ◌∷◌,
}
use synapsegit_lp_studio.Prelude.Text.{
  Text, as_bytes, codes, drop, eq_ignore_ascii_case, find_text, is_ascii_alphanumeric, is_empty,
  is_one_of, is_whitespace, prefixed, span, split_once, starts_with, take, to_ascii_lowercase, trim,
  trim_start, trim_start_matches,
}

pub record MarkupTag : Type 0 where
  pub name : Text
  pub closing : Bool
  pub attributes : List (Text × Text)
  pub body_sha256 : Option Text

abbrev pub is_quote : ℕ → Bool
is_quote c = c == b'\'' || c == b'"'

-- The value of an attribute, and the input behind it.
unfoldable pub quoted_value : ℕ → Text → Text × Text
unfolding split_once
quoted_value quote input = elim (split_once quote input) [
  | none ↦ (input, [])
  | some (value, rest) ↦ (value, rest)
]

unfoldable pub unquoted_value : Text → Text × Text
unfolding span is_whitespace
unquoted_value input = span (λ c. is_whitespace c || c == b'/' || c == b'>') input

unfoldable pub value_at : Text → Text × Text
unfolding quoted_value unquoted_value
value_at [] = unquoted_value []
value_at (c ∷ t) = if is_quote c then quoted_value c t else unquoted_value (c ∷ t)

unfoldable pub attribute_value : Text → Text × Text
unfolding trim_start value_at
attribute_value [] = ([], [])
attribute_value (c ∷ t) = if c == b'=' then value_at (trim_start t) else ([], c ∷ t)

-- What the loop skips before a name.
abbrev pub skip_to_name : Text → Text
skip_to_name input = trim_start_matches (λ c. is_whitespace c || c == b'/') input

abbrev pub name_at : Text → Text × Text
name_at input = span (λ c. is_whitespace c || c == b'=' || c == b'/' || c == b'>') input

unfoldable pub parse_attributes_from : ℕ → Text → List (Text × Text)
parse_attributes_from zero input = []
parse_attributes_from (suc fuel) input =
    let (name, behind) = name_at (skip_to_name input) in
    let (value, rest) = attribute_value (trim_start behind) in
    let more = parse_attributes_from fuel rest in
    if is_empty name then [] else (to_ascii_lowercase name, value) ∷ more

unfoldable pub parse_attributes : Text → List (Text × Text)
unfolding parse_attributes_from trim_start_matches span is_whitespace trim_start to_ascii_lowercase
    attribute_value
parse_attributes input = parse_attributes_from (length input + 1) input

unfoldable pub is_tag_name_byte : ℕ → Bool
unfolding is_ascii_alphanumeric
is_tag_name_byte byte = is_ascii_alphanumeric byte || byte == b'-' || byte == b':'

-- What `parse_tag_body` does behind the slash of a closing tag.
unfoldable pub named_tag : Bool → Text → Option MarkupTag
unfolding trim_start span is_whitespace to_ascii_lowercase all is_tag_name_byte
named_tag closing body =
    let (raw_name, rest) =
      span (λ c. is_whitespace c || c == b'/' || c == b'>') (trim_start body) in
    let name = to_ascii_lowercase raw_name in
    if is_empty name || not (all is_tag_name_byte name)
    then none
    else some (record {
      name = name;
      closing = closing;
      attributes = if closing then [] else parse_attributes rest;
      body_sha256 = none;
    })

unfoldable pub parse_tag_body : Text → Option MarkupTag
unfolding named_tag
parse_tag_body [] = none
parse_tag_body (c ∷ t) =
    if c == b'!' || c == b'?'
    then none
    else if c == b'/'
    then named_tag true t
    else named_tag false (c ∷ t)

-- `markup_tag_end`: what stands before the `>` that is in no quotes, and what stands behind it.
abbrev pub next_quote : Option ℕ → ℕ → Option ℕ
next_quote none c = if is_quote c then some c else none
next_quote (some expected) c = if c == expected then none else some expected

abbrev pub ends_tag : Option ℕ → ℕ → Bool
ends_tag none c = c == b'>'
ends_tag (some expected) c = false

unfoldable pub tag_end : Option ℕ → Text → Option (Text × Text)
tag_end quote [] = none
tag_end quote (c ∷ t) =
    let rest = tag_end (next_quote quote c) t in
    if ends_tag quote c then some ([], t) else prefixed c rest

unfoldable pub behavior_raw_text_element : Text → Bool → Bool
unfolding is_one_of
behavior_raw_text_element name html_mode =
    is_one_of name (codes "style" ∷ codes "script" ∷ [])
    || html_mode
      && is_one_of name (
          codes "title"
          ∷ codes "textarea"
          ∷ codes "xmp"
          ∷ codes "iframe"
          ∷ codes "noembed"
          ∷ codes "noframes"
          ∷ codes "noscript"
          ∷ [])

-- The first place where the text goes on as the pattern does, but for the case of ASCII letters.
unfoldable pub find_lower : Text → Text → Option (Text × Text)
find_lower pattern [] = if starts_with [] pattern then some ([], []) else none
find_lower pattern (c ∷ t) =
    let rest = find_lower pattern t in
    if starts_with (to_ascii_lowercase (c ∷ t)) pattern then some ([], c ∷ t) else prefixed c rest

unfoldable pub name_may_end : Text → Bool
name_may_end [] = true
name_may_end (c ∷ t) =
    c == b' ' || c == b'\t' || c == b'\n' || c == 12 || c == b'\r' || c == b'/' || c == b'>'

-- Whether the body of a closing tag is its name, and a slash at most.
unfoldable pub closes : Text → Text → Bool
closes closing_body_prefix close_body =
    let n = length closing_body_prefix in
    let trailing = trim (drop n close_body) in
    eq_ignore_ascii_case (take n close_body) closing_body_prefix
    && (is_empty trailing || trailing == codes "/")

abbrev pub joined_before : Text → Option (Text × Text) → Option (Text × Text)
joined_before before none = none
joined_before before (some (inner, next)) = some (before ++ inner, next)

-- The text of an element and what stands behind its closing tag.
unfoldable pub raw_text_element_bounds : ℕ → Text → Text → Option (Text × Text)
raw_text_element_bounds zero tag_name tail = none
raw_text_element_bounds (suc fuel) tag_name tail =
    let closing_prefix = codes "</" ++ tag_name in
    elim (find_lower closing_prefix tail) [
      | none ↦ none
      | some (before, at) ↦
          let behind = drop (length closing_prefix) at in
          let later = raw_text_element_bounds fuel tag_name behind in
          if not (name_may_end behind)
          then joined_before (before ++ take (length closing_prefix) at) later
          else elim (tag_end none (drop 1 at)) [
            | none ↦ none
            | some (close_body, next) ↦
                if closes (codes "/" ++ tag_name) (trim close_body)
                then some (before, next)
                else none
          ]
    ]

abbrev pub with_body : Crates → MarkupTag → Text → MarkupTag
with_body crates tag body =
    if tag.name == codes "script"
    then record tag { body_sha256 = some (sha256 crates (as_bytes body)) }
    else tag

-- One round of the scan: the tags to push, and the rest of the text, if the scan goes on.
abbrev pub Round : Type 0
Round = List MarkupTag × Option Text

unfoldable pub scan_element : Crates → Bool → MarkupTag → Text → Round
scan_element crates html_mode tag rest =
    if not tag.closing && html_mode && tag.name == codes "plaintext"
    then (tag ∷ [], none)
    else if not tag.closing && behavior_raw_text_element tag.name html_mode
    then (elim (raw_text_element_bounds (length rest + 1) tag.name rest) [
      | some (inner, next) ↦ (with_body crates tag inner ∷ [], some next)
      | none ↦ (with_body crates tag rest ∷ [], none)
    ])
    else (tag ∷ [], some rest)

unfoldable pub scan_at : Crates → Bool → Text → Round
scan_at crates html_mode at =
    if starts_with at (codes "<!--")
    then (elim (find_text (codes "-->") (drop 4 at)) [
      | none ↦ ([], none)
      | some (comment, close) ↦ ([], some (drop 3 close))
    ])
    else elim (tag_end none (drop 1 at)) [
      | none ↦ ([], none)
      | some (body, rest) ↦ elim (parse_tag_body (trim body)) [
        | none ↦ ([], some rest)
        | some tag ↦ scan_element crates html_mode tag rest
      ]
    ]

unfoldable pub scan_round : Crates → Bool → Text → Round
unfolding find_text
scan_round crates html_mode text = elim (find_text (codes "<") text) [
  | none ↦ ([], none)
  | some (before, at) ↦ scan_at crates html_mode at
]

unfoldable pub scan_from : ℕ → Crates → Bool → Text → List MarkupTag
scan_from zero crates html_mode text = []
scan_from (suc fuel) crates html_mode text =
    let (tags, next) = scan_round crates html_mode text in
    tags ++ elim next [ none ↦ [] | some rest ↦ scan_from fuel crates html_mode rest ]

unfoldable pub scan_markup_tags : Crates → Text → Bool → List MarkupTag
unfolding scan_from scan_round scan_at scan_element
scan_markup_tags crates text html_mode = scan_from (length text + 1) crates html_mode text

-- whether a start tag has the identifier
unfoldable pub has_identifier : Text → MarkupTag → Bool
unfolding any is_one_of
has_identifier identifier tag =
    not tag.closing
    && any
        (λ attribute.
          is_one_of attribute.0 (codes "id" ∷ codes "data-lp-id" ∷ codes "data-studio-block" ∷ [])
          && attribute.1 == identifier)
        tag.attributes

unfoldable pub count_tags : Text → Text → List MarkupTag → ℕ × ℕ
unfolding has_identifier eq_ignore_ascii_case
count_tags tag_name identifier [] = (0, 0)
count_tags tag_name identifier (tag ∷ tags) =
    let (identifiers, matching) = count_tags tag_name identifier tags in
    if has_identifier identifier tag
    then (
      identifiers + 1,
      if eq_ignore_ascii_case tag.name tag_name then matching + 1 else matching,
    )
    else (identifiers, matching)

unfoldable pub count_matching_start_tags : Crates → Text → Text → Text → ℕ × ℕ
unfolding count_tags scan_markup_tags
count_matching_start_tags crates html tag_name identifier =
    count_tags tag_name identifier (scan_markup_tags crates html true)
