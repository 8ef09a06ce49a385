-- ===== src/Publication/Valid.antt =====
-- apps/local-server/src/publication.rs: what `validate_input` shows of the public fields.
use synapsegit_lp_studio.Publication.{
  PublicAcceptedBindingInput, PublicProposalAttributionInput, PublicSessionInput, PublicationInput,
  Publishing, complete_session, incomplete_session, invalid_input, is_hidden, is_lower_hex,
  is_public_id_byte, max_model_label_bytes, max_provider_label_bytes, max_public_id_bytes,
  max_public_label_bytes, max_public_note_bytes, max_public_summary_bytes, max_public_title_bytes,
  validate_attribution, validate_input, validate_public_id, validate_public_text, validate_session,
  validate_sha256, validate_some,
}
use synapsegit_lp_studio.Prelude.{
  All, Option, [], all, any, arith, false, is_some, ltb, none, not, ok, passes_of_reject, reject_if,
  seq-eq-ok, some, true, ℕ, ◌<◌, ◌||◌, ◌∷◌, ◌≡◌, ◌≢◌, ◌≤◌, ◌⊎◌,
}
use synapsegit_lp_studio.Prelude.Text.{Text, as_bytes, codes, is_control, is_empty, len, trim}

-- No control character but for the tab and the line ends; no zero width space, joiner or non-joiner,
-- no word joiner; and no embedding, override or isolate of the writing direction.
pub record IsVisible (c : ℕ) : Type 0 where
  pub no_c0 : c < 0x20 → (c ≡ 9) ⊎ (c ≡ 10) ⊎ (c ≡ 13)
  pub no_c1 : 0x7f ≤ c → 0xa0 ≤ c
  pub no_zero_width : 0x200b ≤ c → 0x200e ≤ c
  pub no_word_joiner : c ≢ 0x2060
  pub no_override : 0x202a ≤ c → 0x202f ≤ c
  pub no_isolate : 0x2066 ≤ c → 0x206a ≤ c

-- Something to read, within the limit, and nothing that hides.
abbrev pub IsPublicText : ℕ → Text → Type 0
IsPublicText max_bytes value =
    (is_empty (trim value) ≡ false) × (len value ≤ max_bytes) × All IsVisible value

abbrev pub IsPublicId : Text → Type 0
IsPublicId value =
    (is_empty value ≡ false)
    × (len value ≤ max_public_id_bytes)
    × (all is_public_id_byte (as_bytes value) ≡ true)

abbrev pub IsSha256 : Text → Type 0
IsSha256 value = (len value ≡ 64) × (all is_lower_hex (as_bytes value) ≡ true)

abbrev pub IsPublicAttribution : PublicProposalAttributionInput → Type 0
IsPublicAttribution attribution =
    IsPublicText max_provider_label_bytes attribution.provider_label
    × IsPublicText max_model_label_bytes attribution.model_label

abbrev pub EachSome : (Text → Type 0) → Option Text → Type 0
EachSome P none = Unit
EachSome P (some value) = P value

abbrev pub IsPublicSession : PublicAcceptedBindingInput → PublicSessionInput → Type 0
IsPublicSession accepted (complete_session proposal receipt attribution disposition note) =
    (is_some accepted.synapse_artifact_manifest_sha256 ≡ true)
    × IsSha256 proposal
    × IsSha256 receipt
    × IsPublicAttribution attribution
    × EachSome (IsPublicText max_public_note_bytes) note
IsPublicSession accepted (incomplete_session proposal attribution reason) =
    IsSha256 proposal × IsPublicAttribution attribution

pub record IsPublic (input : PublicationInput) : Type 0 where
  pub label : IsPublicText max_public_label_bytes input.project.label
  pub title : IsPublicText max_public_title_bytes input.project.title
  pub summary : IsPublicText max_public_summary_bytes input.project.summary
  pub revision : IsPublicId input.accepted.revision_id
  pub site : IsSha256 input.accepted.site_manifest_sha256
  pub artifact : EachSome IsSha256 input.accepted.synapse_artifact_manifest_sha256
  pub session : IsPublicSession input.accepted input.session

hidden-IsVisible : (c : ℕ) → is_hidden c ≡ false → IsVisible c
unfolding is_hidden is_control any
hidden-IsVisible c h = record {
  no_c0 = λ small. ground arith;
  no_c1 = λ large. ground arith;
  no_zero_width = λ large. ground arith;
  no_word_joiner = λ e. ground arith;
  no_override = λ large. ground arith;
  no_isolate = λ large. ground arith;
}

none_hidden-IsVisible : (value : Text) → any is_hidden value ≡ false → All IsVisible value
unfolding any
none_hidden-IsVisible [] h = tt
none_hidden-IsVisible (c ∷ t) h =
    (hidden-IsVisible c (ground arith), none_hidden-IsVisible t (ground arith))

validate_public_text-IsPublicText :
    (value : Text) (max_bytes : ℕ) (label : Text)
    → validate_public_text value max_bytes label ≡ ok tt
    → IsPublicText max_bytes value
unfolding validate_public_text
validate_public_text-IsPublicText value max_bytes label h =
    let (shape, shown) =
      seq-eq-ok
        (reject_if (is_empty (trim value) || ltb max_bytes (len value)) (invalid_input label)) _
        h in
    let test = passes_of_reject _ _ shape in
    (ground arith, ground arith, none_hidden-IsVisible value (passes_of_reject _ _ shown))

validate_public_id-IsPublicId : (value : Text) → validate_public_id value ≡ ok tt → IsPublicId value
unfolding validate_public_id
validate_public_id-IsPublicId value h =
    let test = passes_of_reject _ _ h in (ground arith, ground arith, ground arith)

validate_sha256-IsSha256 : (value : Text) → validate_sha256 value ≡ ok tt → IsSha256 value
unfolding validate_sha256
validate_sha256-IsSha256 value h = let test = passes_of_reject _ _ h in (ground arith, ground arith)

validate_attribution-IsPublicAttribution :
    (attribution : PublicProposalAttributionInput)
    → validate_attribution attribution ≡ ok tt
    → IsPublicAttribution attribution
unfolding validate_attribution
validate_attribution-IsPublicAttribution attribution h =
    let (provider, model) =
      seq-eq-ok
        (validate_public_text attribution.provider_label max_provider_label_bytes
          (codes "provider label"))
        _ h in
    (
      validate_public_text-IsPublicText _ _ _ provider,
      validate_public_text-IsPublicText _ _ _ model,
    )

validate_some-EachSome :
    {P : Text → Type 0} (validate : Text → Publishing Unit) (value : Option Text)
    → ((text : Text) → validate text ≡ ok tt → P text)
    → validate_some validate value ≡ ok tt
    → EachSome P value
validate_some-EachSome validate none each h = tt
validate_some-EachSome validate (some text) each h = each text h

validate_session-IsPublicSession :
    (accepted : PublicAcceptedBindingInput) (session : PublicSessionInput)
    → validate_session accepted session ≡ ok tt
    → IsPublicSession accepted session
unfolding validate_session
validate_session-IsPublicSession accepted
      (complete_session proposal receipt attribution disposition note) h =
    let (bound, h₁) =
      seq-eq-ok
        (reject_if (not (is_some accepted.synapse_artifact_manifest_sha256))
          (invalid_input (codes "complete history requires a Synapse artifact binding")))
        _ h in
    let (h₂, h₃) = seq-eq-ok (validate_sha256 proposal) _ h₁ in
    let (h₄, h₅) = seq-eq-ok (validate_sha256 receipt) _ h₃ in
    let (h₆, h₇) = seq-eq-ok (validate_attribution attribution) _ h₅ in
    let test = passes_of_reject _ _ bound in
    (
      ground arith,
      validate_sha256-IsSha256 proposal h₂,
      validate_sha256-IsSha256 receipt h₄,
      validate_attribution-IsPublicAttribution attribution h₆,
      validate_some-EachSome _ note
          (λ text. validate_public_text-IsPublicText text max_public_note_bytes _) h₇,
    )
validate_session-IsPublicSession accepted (incomplete_session proposal attribution reason) h =
    let (h₁, h₂) = seq-eq-ok (validate_sha256 proposal) _ h in
    (validate_sha256-IsSha256 proposal h₁, validate_attribution-IsPublicAttribution attribution h₂)

-- An input that is published has only public fields that are fit for it: each text is not blank, keeps
-- to its limit in bytes, and has no control character but for tabs and line ends, and none of U+200B to
-- U+200D, U+2060, U+202A to U+202E and U+2066 to U+2069; identifiers and digests have the form of one;
-- and a history that is called complete is bound to an artifact of SynapseGit.
pub validate_input-IsPublic :
    (input : PublicationInput) → validate_input input ≡ ok tt → IsPublic input
unfolding validate_input
validate_input-IsPublic input h =
    let (label, h₁) =
      seq-eq-ok
        (validate_public_text input.project.label max_public_label_bytes
          (codes "project public label"))
        _ h in
    let (title, h₂) =
      seq-eq-ok
        (validate_public_text input.project.title max_public_title_bytes (codes "public title")) _
        h₁ in
    let (summary, h₃) =
      seq-eq-ok
        (validate_public_text input.project.summary max_public_summary_bytes
          (codes "public summary"))
        _ h₂ in
    let (revision, h₄) = seq-eq-ok (validate_public_id input.accepted.revision_id) _ h₃ in
    let (site, h₅) = seq-eq-ok (validate_sha256 input.accepted.site_manifest_sha256) _ h₄ in
    let (artifact, session) =
      seq-eq-ok (validate_some validate_sha256 input.accepted.synapse_artifact_manifest_sha256) _
        h₅ in
    record {
      label = validate_public_text-IsPublicText _ _ _ label;
      title = validate_public_text-IsPublicText _ _ _ title;
      summary = validate_public_text-IsPublicText _ _ _ summary;
      revision = validate_public_id-IsPublicId _ revision;
      site = validate_sha256-IsSha256 _ site;
      artifact = validate_some-EachSome validate_sha256 _ validate_sha256-IsSha256 artifact;
      session = validate_session-IsPublicSession _ _ session;
    }
