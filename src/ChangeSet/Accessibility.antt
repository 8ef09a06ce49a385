-- ===== src/ChangeSet/Accessibility.antt =====
-- apps/local-server/src/change_set.rs: `accessibility_smoke_check`.
use synapsegit_lp_studio.Prelude.Map
use synapsegit_lp_studio.ChangeSet.Types.{Crates, Files, StaticCheck, advisory_warning, passed}
use synapsegit_lp_studio.ChangeSet.Path.{text_media_type_for_path}
use synapsegit_lp_studio.ChangeSet.Markup.{MarkupTag, scan_markup_tags}
use synapsegit_lp_studio.ChangeSet.Behavior.Features.{attribute_map, collect_attributes}
use synapsegit_lp_studio.ChangeSet.Behavior.Warnings.{has_media_type}
use synapsegit_lp_studio.Prelude.{
  Bool, List, Option, [], any, false, if◌then◌else◌, is_some, list_eq, nat_eq, none, not, some,
  true, ℕ, ◌&&◌, ◌++◌, ◌+◌, ◌-◌, ◌==◌, ◌∷◌,
}
use synapsegit_lp_studio.Prelude.Text.{
  Bytes, Text, codes, decimal, eq_ignore_ascii_case, is_empty, is_one_of, trim,
}
use synapsegit_lp_studio.Prelude.Utf8.{from_utf8}
use synapsegit_lp_studio.Prelude.Map.{BTreeMap, BTreeSet}

pub record AccessibilitySmokeSummary : Type 0 where
  pub html_documents : ℕ
  pub documents_without_language : ℕ
  pub duplicate_ids : ℕ
  pub images_without_alt : ℕ
  pub form_controls_without_name : ℕ

abbrev pub not_blank : Option Text → Option Text
not_blank none = none
not_blank (some t) = if is_empty (trim t) then none else some t

abbrev pub count_of : Option ℕ → ℕ
count_of none = 0
count_of (some n) = n

-- The identifiers of a document with their counts, and the ones that a label names.
abbrev pub Identifiers : Type 0
Identifiers = BTreeMap ℕ × BTreeSet

abbrev pub count_id : Option Text → BTreeMap ℕ → BTreeMap ℕ
count_id none ids = ids
count_id (some id) ids = Map.insert id (count_of (Map.get id ids) + 1) ids

abbrev pub add_label : Option Text → BTreeSet → BTreeSet
add_label none labelled_ids = labelled_ids
add_label (some labelled) labelled_ids = Map.insert labelled tt labelled_ids

unfoldable pub identify : MarkupTag → Identifiers → Identifiers
unfolding collect_attributes trim
identify tag (ids, labelled_ids) =
    let attributes = attribute_map tag.attributes in
    if tag.closing then (ids, labelled_ids) else (
      count_id (not_blank (Map.get (codes "id") attributes)) ids,
      if tag.name == codes "label"
          then add_label (not_blank (Map.get (codes "for") attributes)) labelled_ids
          else labelled_ids,
    )

unfoldable pub identifiers : List MarkupTag → Identifiers → Identifiers
unfolding identify
identifiers [] found = found
identifiers (tag ∷ tags) found = identifiers tags (identify tag found)

-- `count.saturating_sub(1)`, summed up
unfoldable pub repeated : BTreeMap ℕ → ℕ
repeated [] = 0
repeated ((id, count) ∷ ids) = (count - 1) + repeated ids

unfoldable pub has_language : MarkupTag → Bool
unfolding any trim
has_language tag =
    not tag.closing
    && tag.name == codes "html"
    && any (λ attribute. attribute.0 == codes "lang" && not (is_empty (trim attribute.1)))
        tag.attributes

abbrev pub is_hidden_type : Option Text → Bool
is_hidden_type none = false
is_hidden_type (some value) = eq_ignore_ascii_case value (codes "hidden")

abbrev pub is_labelled : Option Text → BTreeSet → Bool
is_labelled none labelled_ids = false
is_labelled (some id) labelled_ids = Map.contains_key id labelled_ids

unfoldable pub is_unnamed_control : MarkupTag → BTreeMap Text → BTreeSet → Bool
unfolding is_one_of eq_ignore_ascii_case any trim
is_unnamed_control tag attributes labelled_ids =
    is_one_of tag.name (codes "input" ∷ codes "select" ∷ codes "textarea" ∷ [])
    && not (tag.name == codes "input" && is_hidden_type (Map.get (codes "type") attributes))
    && not (
        any (λ name. is_some (not_blank (Map.get name attributes)))
          (codes "aria-label" ∷ codes "aria-labelledby" ∷ codes "title" ∷ []))
    && not (is_labelled (Map.get (codes "id") attributes) labelled_ids)

abbrev pub one_if : Bool → ℕ
one_if true = 1
one_if false = 0

unfoldable pub inspect_tag :
    BTreeSet → AccessibilitySmokeSummary → MarkupTag → AccessibilitySmokeSummary
unfolding collect_attributes is_unnamed_control
inspect_tag labelled_ids summary tag =
    let attributes = attribute_map tag.attributes in
    if tag.closing then summary else record summary {
      images_without_alt =
          summary.images_without_alt
          + one_if (tag.name == codes "img" && not (Map.contains_key (codes "alt") attributes));
      form_controls_without_name =
          summary.form_controls_without_name
          + one_if (is_unnamed_control tag attributes labelled_ids);
    }

unfoldable pub inspect_tags :
    BTreeSet → AccessibilitySmokeSummary → List MarkupTag → AccessibilitySmokeSummary
unfolding inspect_tag
inspect_tags labelled_ids summary [] = summary
inspect_tags labelled_ids summary (tag ∷ tags) =
    inspect_tags labelled_ids (inspect_tag labelled_ids summary tag) tags

-- One document, by its tags.
unfoldable pub inspect_document :
    AccessibilitySmokeSummary → List MarkupTag → AccessibilitySmokeSummary
unfolding identifiers repeated any has_language inspect_tags
inspect_document summary tags =
    let (ids, labelled_ids) = identifiers tags ([], []) in
    inspect_tags labelled_ids
      (record summary {
        html_documents = summary.html_documents + 1;
        duplicate_ids = summary.duplicate_ids + repeated ids;
        documents_without_language =
            summary.documents_without_language + one_if (not (any has_language tags));
      })
      tags

unfoldable pub inspect_file :
    Crates → AccessibilitySmokeSummary → Text → Bytes → AccessibilitySmokeSummary
unfolding inspect_document from_utf8 scan_markup_tags text_media_type_for_path
inspect_file crates summary path bytes =
    if has_media_type path (codes "text/html")
    then (elim (from_utf8 bytes) [
      | none ↦ summary
      | some text ↦ inspect_document summary (scan_markup_tags crates text true)
    ])
    else summary

unfoldable pub inspect_files :
    Crates → AccessibilitySmokeSummary → Files → AccessibilitySmokeSummary
unfolding inspect_file
inspect_files crates summary [] = summary
inspect_files crates summary ((path, bytes) ∷ files) =
    inspect_files crates (inspect_file crates summary path bytes) files

abbrev pub empty_summary : AccessibilitySmokeSummary
empty_summary = record {
  html_documents = 0;
  documents_without_language = 0;
  duplicate_ids = 0;
  images_without_alt = 0;
  form_controls_without_name = 0;
}

abbrev pub issue_count : AccessibilitySmokeSummary → ℕ
issue_count summary =
    summary.documents_without_language + summary.duplicate_ids + summary.images_without_alt
    + summary.form_controls_without_name

unfoldable pub smoke_message : AccessibilitySmokeSummary → Text
unfolding decimal
smoke_message summary =
    if issue_count summary == 0
    then codes
        "Bounded accessibility smoke found no missing language, duplicate id, image alt, or form-name issue across "
      ++ (decimal summary.html_documents
          ++ codes " HTML document(s); this is not WCAG conformance.")
    else codes "Bounded accessibility smoke found "
      ++ (decimal (issue_count summary)
          ++ (codes " issue(s): "
              ++ (decimal summary.documents_without_language
                  ++ (codes " document language, "
                      ++ (decimal summary.duplicate_ids
                          ++ (codes " duplicate id, "
                              ++ (decimal summary.images_without_alt
                                  ++ (codes " image alt, "
                                      ++ (decimal summary.form_controls_without_name
                                          ++ codes
                                              " form-name; this is not WCAG conformance.")))))))))

unfoldable pub accessibility_smoke_check : Crates → Files → StaticCheck
unfolding inspect_files smoke_message
accessibility_smoke_check crates files =
    let summary = inspect_files crates empty_summary files in
    record {
      id = codes "accessibility-smoke";
      status = if issue_count summary == 0 then passed else advisory_warning;
      message = smoke_message summary;
    }
