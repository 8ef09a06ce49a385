-- ===== src/Publication/Tests.antt =====
-- apps/local-server/src/publication.rs: a publication, and the properties at it.
use synapsegit_lp_studio.Publication.{
  PublicationInput, adopted_unchanged, complete_session, html, invalid_input, validate_input,
  validate_public_text, is_hidden, is_lower_hex, is_public_id_byte, validate_attribution,
  validate_public_id, validate_session, validate_sha256, markdown_inline, is_markdown_mark,
}
use synapsegit_lp_studio.Publication.Escape.{html_lem, is_markup, read_html}
use synapsegit_lp_studio.Publication.Valid.{IsPublic, validate_input-IsPublic}
use synapsegit_lp_studio.Publication.Markdown.{
  blank_if_break, markdown_inline_lem, read_markdown, is_active,
}
use synapsegit_lp_studio.Prelude.{all, any, err, false, map, none, ok, refl, some, ◌∷◌, ◌≡◌}
use synapsegit_lp_studio.Prelude.Text.{Text, as_bytes, codes, len, trim}

abbrev digest : Text
digest = codes "0123456789abcdef0123456789abcdef0123456789abcdef0123456789abcdef"

abbrev input : PublicationInput
input = record {
  project = record { label = codes "LP"; title = codes "A <b>"; summary = codes "Two\nlines" };
  accepted = record {
    revision_id = codes "rev-1";
    site_manifest_sha256 = digest;
    synapse_artifact_manifest_sha256 = some digest;
  };
  session =
      complete_session digest digest
        (record { provider_label = codes "P"; model_label = codes "M" }) adopted_unchanged
        (some (codes "ok"));
}

input_passes : validate_input input ≡ ok tt
unfolding validate_input validate_public_text trim len any is_hidden validate_public_id all as_bytes
    is_public_id_byte validate_sha256 is_lower_hex validate_session validate_attribution
input_passes = refl

hidden_is_refused :
    validate_public_text (0x202e ∷ codes "x") 256 (codes "label")
    ≡ err (invalid_input (codes "label"))
unfolding validate_public_text trim len any is_hidden
hidden_is_refused = refl

validate_input-IsPublic_example : IsPublic input
validate_input-IsPublic_example = validate_input-IsPublic input input_passes

html_lem_example :
    (any is_markup (html (codes "<a&b>")) ≡ false)
    × (read_html 0 (html (codes "<a&b>")) ≡ codes "<a&b>")
html_lem_example = html_lem (codes "<a&b>")

-- text that is not escaped
mark_is_refused : read_markdown false 0 (codes "a *b*") ≡ none
unfolding read_markdown is_active is_markdown_mark
mark_is_refused = refl

markdown_inline_lem_example :
    read_markdown false 0 (markdown_inline (codes "1. *a*\n<b>"))
    ≡ some (map blank_if_break (codes "1. *a*\n<b>"))
markdown_inline_lem_example = markdown_inline_lem (codes "1. *a*\n<b>")
