-- ===== src/StaticExport/Tags.antt =====
-- apps/local-server/src/static_export.rs: the scanner for markup of an export, which refuses what it
-- cannot read. A cursor is the rest of the text, as in ChangeSet/Markup.
pub mod Ends
pub mod Rounds
use synapsegit_lp_studio.StaticExport.{ExportTag, Exporting, malformed_markup}
use synapsegit_lp_studio.Storage.Paths.{is_ascii_alphabetic}
use synapsegit_lp_studio.ChangeSet.Markup.{
  behavior_raw_text_element, closes, find_lower, is_quote, is_tag_name_byte, name_may_end, tag_end,
}
use synapsegit_lp_studio.Prelude.{
  Bool, List, Option, [], all, any, err, false, if◌then◌else◌, length, list_eq, nat_eq, none, not,
  ok, reject_if, some, suc, true, zero, ℕ, ◌&&◌, ◌++◌, ◌+◌, ◌==◌, ◌>>=◌, ◌>>◌, ◌||◌, ◌∷◌,
}
use synapsegit_lp_studio.Prelude.Text.{
  Text, codes, contains, drop, find_text, is_control, is_empty, is_whitespace, span, split_once,
  starts_with, take, to_ascii_lowercase, trim, trim_start,
}

abbrev pub malformed : {A : Type 0} → Text → Option A → Exporting A
malformed source_path none = err (malformed_markup source_path)
malformed source_path (some a) = ok a

-- whether a character may not stand in the name, or the value without quotes, of an attribute
unfoldable pub is_bad_name_char : ℕ → Bool
unfolding is_control any
is_bad_name_char c = is_control c || any (λ x. x == c) (codes "/<>'\"`")

unfoldable pub is_bad_value_char : ℕ → Bool
unfolding any
is_bad_value_char c = any (λ x. x == c) (codes "<>'\"`=")

-- The value of an attribute, and the input behind it.
unfoldable pub export_quoted_value : Text → ℕ → Text → Exporting (Text × Text)
unfolding split_once
export_quoted_value source_path quote input = malformed source_path (split_once quote input)

unfoldable pub export_unquoted_value : Text → Text → Exporting (Text × Text)
unfolding span is_whitespace any is_bad_value_char
export_unquoted_value source_path input =
    let (value, rest) = span is_whitespace input in
    if any is_bad_value_char value then err (malformed_markup source_path) else ok (value, rest)

unfoldable pub export_value_at : Text → Text → Exporting (Text × Text)
unfolding export_quoted_value export_unquoted_value
export_value_at source_path [] = export_unquoted_value source_path []
export_value_at source_path (c ∷ t) =
    if is_quote c
    then export_quoted_value source_path c t
    else export_unquoted_value source_path (c ∷ t)

unfoldable pub export_value : Text → Text → Exporting (Text × Text)
unfolding trim_start export_value_at
export_value source_path [] = ok ([], [])
export_value source_path (c ∷ t) =
    if c == b'=' then export_value_at source_path (trim_start t) else ok ([], c ∷ t)

-- the name at the start of the input, up to a blank or an equals sign
abbrev pub export_name_at : Text → Text × Text
export_name_at input = span (λ c. is_whitespace c || c == b'=') input

-- One attribute, from its name on, and the input behind it.
unfoldable pub export_attribute : Text → Text → Exporting ((Text × Text) × Text)
export_attribute source_path input =
    let (name, behind) = export_name_at input in
    do
      reject_if (is_empty name || any is_bad_name_char name) (malformed_markup source_path)
      value ← export_value source_path (trim_start behind)
      ok ((to_ascii_lowercase name, value.0), value.1)

abbrev pub more_attributes :
    Text × Text → Exporting (List (Text × Text)) → Exporting (List (Text × Text))
more_attributes attribute (err e) = err e
more_attributes attribute (ok attributes) = ok (attribute ∷ attributes)

unfoldable pub export_attributes_from : ℕ → Text → Text → Exporting (List (Text × Text))
unfolding trim_start
export_attributes_from zero source_path input = ok []
export_attributes_from (suc fuel) source_path input =
    let rest = trim_start input in
    if is_empty rest || rest == codes "/" then ok [] else elim (export_attribute source_path rest) [
      | err e ↦ err e
      | ok (attribute, behind) ↦
          more_attributes attribute (export_attributes_from fuel source_path behind)
    ]

-- `parse_attributes` of this file
unfoldable pub export_attributes : Text → Text → Exporting (List (Text × Text))
export_attributes source_path input = export_attributes_from (length input + 1) source_path input

-- What `parse_tag_body` does behind the slash of a closing tag.
unfoldable pub export_named_tag : Text → Bool → Text → Exporting (Option ExportTag)
unfolding trim_start span is_whitespace to_ascii_lowercase all is_tag_name_byte export_attributes
export_named_tag source_path closing body =
    let (raw_name, rest) =
      span (λ c. is_whitespace c || c == b'/' || c == b'>') (trim_start body) in
    let name = to_ascii_lowercase raw_name in
    if is_empty name || not (all is_tag_name_byte name) then ok none else (do
      attributes ← if closing then ok [] else export_attributes source_path rest
      ok (
          some (record {
            name = name;
            closing = closing;
            attributes = attributes;
            inline_css = none;
            raw_text_analysis_incomplete = false;
          })))

unfoldable pub export_tag_body : Text → Text → Exporting (Option ExportTag)
unfolding export_named_tag
export_tag_body source_path [] = ok none
export_tag_body source_path (c ∷ t) =
    if c == b'!' || c == b'?'
    then ok none
    else if c == b'/'
    then export_named_tag source_path true t
    else export_named_tag source_path false (c ∷ t)

-- `scan_raw_text_element`: the text of the element, and what stands behind its closing tag.
unfoldable pub export_close_at : Text → Text → Text → Text → Exporting (Text × Text)
unfolding tag_end drop trim closes
export_close_at source_path tag_name before at = elim (tag_end none (drop 1 at)) [
  | none ↦ err (malformed_markup source_path)
  | some (close_body, next) ↦
      if closes (codes "/" ++ tag_name) (trim close_body)
      then ok (before, next)
      else err (malformed_markup source_path)
]

abbrev pub text_before : Text → Exporting (Text × Text) → Exporting (Text × Text)
text_before before (err e) = err e
text_before before (ok (inner, next)) = ok (before ++ inner, next)

unfoldable pub export_raw_text : ℕ → Text → Text → Text → Exporting (Text × Text)
unfolding find_lower drop take name_may_end export_close_at
export_raw_text zero source_path tag_name tail = err (malformed_markup source_path)
export_raw_text (suc fuel) source_path tag_name tail =
    let closing_prefix = codes "</" ++ tag_name in
    elim (find_lower closing_prefix tail) [
      | none ↦ err (malformed_markup source_path)
      | some (before, at) ↦
          let behind = drop (length closing_prefix) at in
          let later = export_raw_text fuel source_path tag_name behind in
          if not (name_may_end behind)
          then text_before (before ++ take (length closing_prefix) at) later
          else export_close_at source_path tag_name before at
    ]

-- The tag, with what its body tells.
unfoldable pub with_raw_body : ExportTag → Text → ExportTag
unfolding contains
with_raw_body tag body =
    if tag.name == codes "style"
    then record tag { inline_css = some body }
    else if tag.name == codes "script" && contains body (codes "<!--")
    then record tag { raw_text_analysis_incomplete = true }
    else tag

-- One round of the scan: the tags to push, and the rest of the text, if the scan goes on.
abbrev pub ExportRound : Type 0
ExportRound = Exporting (List ExportTag × Option Text)

unfoldable pub export_element : Text → Bool → ExportTag → Text → ExportRound
unfolding behavior_raw_text_element
export_element source_path html_mode tag rest =
    if not tag.closing && html_mode && tag.name == codes "plaintext"
    then ok (tag ∷ [], none)
    else if not tag.closing && behavior_raw_text_element tag.name html_mode
    then (do
      body ← export_raw_text (length rest + 1) source_path tag.name rest
      ok (with_raw_body tag body.0 ∷ [], some body.1))
    else ok (tag ∷ [], some rest)

-- What is skipped, from an opening to its end: comments, CDATA sections and processing instructions.
unfoldable pub export_skip : Text → Text → ℕ → Text → ExportRound
unfolding find_text drop
export_skip source_path closing n inner = elim (find_text closing inner) [
  | none ↦ err (malformed_markup source_path)
  | some (skipped, close) ↦ ok ([], some (drop n close))
]

unfoldable pub looks_like_markup : Text → Bool
unfolding is_ascii_alphabetic
looks_like_markup [] = false
looks_like_markup (c ∷ t) = is_ascii_alphabetic c || c == b'/' || c == b'!' || c == b'?'

unfoldable pub export_tag_at : Text → Bool → Text → ExportRound
unfolding tag_end trim looks_like_markup
export_tag_at source_path html_mode inner = elim (tag_end none inner) [
  | none ↦
      if looks_like_markup inner then err (malformed_markup source_path) else ok ([], some inner)
  | some (body, rest) ↦ do
    found ← export_tag_body source_path (trim body)
    elim found [
      | none ↦ ok ([], some rest)
      | some tag ↦ export_element source_path html_mode tag rest
    ]
]

-- At a `<`.
unfoldable pub export_at : Text → Bool → Text → ExportRound
unfolding starts_with drop
export_at source_path html_mode at =
    if starts_with at (codes "<!--")
    then export_skip source_path (codes "-->") 3 (drop 4 at)
    else if starts_with at (codes "<![CDATA[")
    then export_skip source_path (codes "]]>") 3 (drop 9 at)
    else if not html_mode && starts_with at (codes "<?")
    then export_skip source_path (codes "?>") 2 (drop 2 at)
    else export_tag_at source_path html_mode (drop 1 at)

unfoldable pub export_round : Text → Bool → Text → ExportRound
unfolding find_text
export_round source_path html_mode text = elim (find_text (codes "<") text) [
  | none ↦ ok ([], none)
  | some (before, at) ↦ export_at source_path html_mode at
]

abbrev pub more_tags : List ExportTag → Exporting (List ExportTag) → Exporting (List ExportTag)
more_tags tags (err e) = err e
more_tags tags (ok more) = ok (tags ++ more)

unfoldable pub export_tags_from : ℕ → Text → Bool → Text → Exporting (List ExportTag)
export_tags_from zero source_path html_mode text = ok []
export_tags_from (suc fuel) source_path html_mode text =
    elim (export_round source_path html_mode text) [
      | err e ↦ err e
      | ok (tags, none) ↦ ok tags
      | ok (tags, some rest) ↦ more_tags tags (export_tags_from fuel source_path html_mode rest)
    ]

-- `scan_markup_tags` of this file
unfoldable pub export_tags : Text → Bool → Text → Exporting (List ExportTag)
export_tags source_path html_mode text =
    export_tags_from (length text + 1) source_path html_mode text
