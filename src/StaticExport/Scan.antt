-- ===== src/StaticExport/Scan.antt =====
-- apps/local-server/src/static_export.rs: `scan_references`, the scan of one file.
pub mod Loops
use synapsegit_lp_studio.StaticExport.{
  CssReferenceScan, ExportTag, Exporting, ReferenceScan, invalid_text_encoding,
  unsupported_base_element,
}
use synapsegit_lp_studio.StaticExport.Tags.{export_tags}
use synapsegit_lp_studio.StaticExport.Css.{css_references, is_ascii_whitespace}
use synapsegit_lp_studio.StaticExport.References.{
  Refresh, attribute_named, character_reference_sensitive_attribute, export_media_type,
  html_tokenizer_boundary_analysis_incomplete, is_obsolete_surface, meta_refresh_reference,
  refresh_plain, refresh_to, refresh_unclear, srcset_references,
  svg_presentation_reference_attribute, words, xml_external_boundary_analysis_incomplete,
}
use synapsegit_lp_studio.Prelude.{
  Bool, List, Option, [], err, false, if◌then◌else◌, list_eq, ltb, nat_eq, none, not, ok, reject_if,
  some, true, ◌&&◌, ◌++◌, ◌==◌, ◌>>=◌, ◌>>◌, ◌||◌, ◌∷◌,
}
use synapsegit_lp_studio.Prelude.Text.{
  Bytes, Text, codes, contains_char, eq_ignore_ascii_case, is_empty, is_one_of, len, starts_with,
  trim,
}
use synapsegit_lp_studio.Prelude.Utf8.{from_utf8}

abbrev pub no_references : ReferenceScan
no_references = record { references = []; dynamic_capable = false; analysis_incomplete = false }

-- What two parts of a file show together, the first part's references first.
abbrev pub both : ReferenceScan → ReferenceScan → ReferenceScan
both a b = record {
  references = a.references ++ b.references;
  dynamic_capable = a.dynamic_capable || b.dynamic_capable;
  analysis_incomplete = a.analysis_incomplete || b.analysis_incomplete;
}

abbrev pub of_references : List Text → ReferenceScan
of_references references = record {
  references = references;
  dynamic_capable = false;
  analysis_incomplete = false;
}

abbrev pub of_css : CssReferenceScan → ReferenceScan
of_css css = record {
  references = css.css_references_found;
  dynamic_capable = false;
  analysis_incomplete = css.css_incomplete;
}

abbrev pub flags : Bool → Bool → ReferenceScan
flags dynamic_capable analysis_incomplete = record {
  references = [];
  dynamic_capable = dynamic_capable;
  analysis_incomplete = analysis_incomplete;
}

abbrev pub is_reference_attribute : Text → Text → Bool
is_reference_attribute tag_name name =
    is_one_of name (
      codes "src"
      ∷ codes "href"
      ∷ codes "xlink:href"
      ∷ codes "poster"
      ∷ codes "action"
      ∷ codes "formaction"
      ∷ codes "background"
      ∷ codes "manifest"
      ∷ [])
    || tag_name == codes "object" && name == codes "data"

abbrev pub attribute_flags : Text → Text → Text → ReferenceScan
attribute_flags tag_name name value = flags (starts_with name (codes "on") && ltb 2 (len name)) (
    tag_name == codes "iframe" && name == codes "srcdoc"
    || is_obsolete_surface name && not (is_empty (trim value)))

unfoldable pub attribute_references : Bool → Text → Text → Text → ReferenceScan
unfolding is_one_of srcset_references words is_ascii_whitespace css_references
    svg_presentation_reference_attribute
attribute_references html tag_name name value =
    if is_reference_attribute tag_name name
    then of_references (value ∷ [])
    else if name == codes "srcset" || name == codes "imagesrcset"
    then of_references (srcset_references value)
    else if name == codes "ping"
    then of_references (words is_ascii_whitespace value)
    else if name == codes "style" || not html && svg_presentation_reference_attribute name
    then of_css (css_references value)
    else no_references

-- The loop over the attributes of a tag.
unfoldable pub attributes_scan : Bool → Text → List (Text × Text) → ReferenceScan
unfolding attribute_references starts_with len is_one_of trim
attributes_scan html tag_name [] = no_references
attributes_scan html tag_name ((name, value) ∷ attributes) =
    both (attribute_flags tag_name name value) (
      both (attribute_references html tag_name name value)
        (attributes_scan html tag_name attributes))

unfoldable pub has_character_reference : Text → List (Text × Text) → Bool
unfolding contains_char character_reference_sensitive_attribute
has_character_reference tag_name [] = false
has_character_reference tag_name ((name, value) ∷ attributes) =
    contains_char value b'&' && character_reference_sensitive_attribute tag_name name
    || has_character_reference tag_name attributes

unfoldable pub has_base_href : List (Text × Text) → Bool
unfolding trim
has_base_href [] = false
has_base_href ((name, value) ∷ attributes) =
    name == codes "href" && not (is_empty (trim value)) || has_base_href attributes

unfoldable pub has_refresh : List (Text × Text) → Bool
unfolding eq_ignore_ascii_case trim
has_refresh [] = false
has_refresh ((name, value) ∷ attributes) =
    name == codes "http-equiv" && eq_ignore_ascii_case (trim value) (codes "refresh")
    || has_refresh attributes

abbrev pub of_refresh : Refresh → ReferenceScan
of_refresh refresh_unclear = flags true true
of_refresh refresh_plain = flags true false
of_refresh (refresh_to reference) = record {
  references = reference ∷ [];
  dynamic_capable = true;
  analysis_incomplete = false;
}

abbrev pub of_content : Option Text → ReferenceScan
of_content none = flags true true
of_content (some value) = of_refresh (meta_refresh_reference value)

unfoldable pub meta_scan : Text → List (Text × Text) → ReferenceScan
unfolding has_refresh meta_refresh_reference
meta_scan tag_name attributes =
    if tag_name == codes "meta" && has_refresh attributes
    then of_content (attribute_named (codes "content") attributes)
    else no_references

unfoldable pub inline_css_scan : Option Text → ReferenceScan
unfolding css_references
inline_css_scan none = no_references
inline_css_scan (some css) = of_css (css_references css)

-- What a start tag shows.
unfoldable pub tag_scan : Bool → ExportTag → ReferenceScan
unfolding has_character_reference inline_css_scan meta_scan attributes_scan
tag_scan html tag =
    both
      (flags (tag.name == codes "script") (
        has_character_reference tag.name tag.attributes
        || tag.name == codes "noscript"
        || tag.raw_text_analysis_incomplete))
      (both (inline_css_scan tag.inline_css)
        (both (meta_scan tag.name tag.attributes) (attributes_scan html tag.name tag.attributes)))

-- The loop over the tags.
unfoldable pub tags_scan : Text → Bool → List ExportTag → Exporting ReferenceScan
unfolding has_base_href tag_scan
tags_scan source_path html [] = ok no_references
tags_scan source_path html (tag ∷ tags) =
    let rest = tags_scan source_path html tags in
    if tag.closing then rest else do
      reject_if (tag.name == codes "base" && has_base_href tag.attributes)
          (unsupported_base_element source_path)
      scan ← rest
      ok (both (tag_scan html tag) scan)

unfoldable pub markup_scan : Text → Bool → Text → Exporting ReferenceScan
unfolding export_tags tags_scan html_tokenizer_boundary_analysis_incomplete
    xml_external_boundary_analysis_incomplete
markup_scan source_path html text = do
  tags ← export_tags source_path html text
  scan ← tags_scan source_path html tags
  ok (
      both
        (flags false (
          if html
          then html_tokenizer_boundary_analysis_incomplete text
          else xml_external_boundary_analysis_incomplete text))
        scan)

abbrev pub scan_text : Text → Text → Text → Exporting ReferenceScan
scan_text source_path media_type text =
    if media_type == codes "text/css"
    then ok (of_css (css_references text))
    else if media_type == codes "text/javascript"
    then ok (flags true false)
    else markup_scan source_path (media_type == codes "text/html") text

unfoldable pub scan_references : Text → Bytes → Exporting ReferenceScan
unfolding export_media_type from_utf8 css_references markup_scan
scan_references source_path bytes = elim (export_media_type source_path) [
  | none ↦ ok no_references
  | some media_type ↦ elim (from_utf8 bytes) [
    | none ↦ err (invalid_text_encoding source_path)
    | some text ↦ scan_text source_path media_type text
  ]
]
