-- ===== src/Publication.antt =====
-- apps/local-server/src/publication.rs: the input of a publication, its validation, and the escaping of
-- the texts that the pages show.
pub mod Escape
pub mod Markdown
pub mod Valid
pub mod Tests
use synapsegit_lp_studio.Prelude.{
  Bool, Option, Result, [], all, any, if◌then◌else◌, is_some, leb, list_eq, ltb, nat_eq, none, not,
  ok, reject_if, some, ℕ, ◌&&◌, ◌++◌, ◌==◌, ◌>>=◌, ◌>>◌, ◌||◌, ◌∷◌,
}
use synapsegit_lp_studio.Prelude.Text.{
  Text, as_bytes, codes, is_ascii_alphanumeric, is_ascii_digit, is_control, is_empty, len, trim,
}

abbrev pub max_public_label_bytes : ℕ
max_public_label_bytes = 256

abbrev pub max_public_title_bytes : ℕ
max_public_title_bytes = 256

abbrev pub max_public_summary_bytes : ℕ
max_public_summary_bytes = 4096

abbrev pub max_public_note_bytes : ℕ
max_public_note_bytes = 2048

abbrev pub max_provider_label_bytes : ℕ
max_provider_label_bytes = 128

abbrev pub max_model_label_bytes : ℕ
max_model_label_bytes = 256

abbrev pub max_public_id_bytes : ℕ
max_public_id_bytes = 128

pub record PublicProjectInput : Type 0 where
  pub label : Text
  pub title : Text
  pub summary : Text

pub record PublicAcceptedBindingInput : Type 0 where
  pub revision_id : Text
  pub site_manifest_sha256 : Text
  pub synapse_artifact_manifest_sha256 : Option Text

pub record PublicProposalAttributionInput : Type 0 where
  pub provider_label : Text
  pub model_label : Text

pub data PublicDisposition : Type 0 where
  adopted_unchanged rejected deferred : PublicDisposition

pub data IncompleteReason : Type 0 where
  proposal_pending decision_outcome_unknown : IncompleteReason

pub data PublicSessionInput : Type 0 where
  complete_session :
      (proposal_manifest_sha256 decision_receipt_sha256 : Text)
      (attribution : PublicProposalAttributionInput) (disposition : PublicDisposition)
      (public_decision_note : Option Text)
      → PublicSessionInput
  incomplete_session :
      (proposal_manifest_sha256 : Text) (attribution : PublicProposalAttributionInput)
      (reason : IncompleteReason)
      → PublicSessionInput

pub record PublicationInput : Type 0 where
  pub project : PublicProjectInput
  pub accepted : PublicAcceptedBindingInput
  pub session : PublicSessionInput

pub data PublicationError : Type 0 where
  invalid_input : (label : Text) → PublicationError
  serialization : PublicationError

abbrev pub Publishing : Type 0 → Type 0
Publishing = Result PublicationError

-- control characters but for the line ends and the tab, and the invisible ones
unfoldable pub is_hidden : ℕ → Bool
unfolding is_control any
is_hidden c =
    c == 0
    || is_control c && not (c == b'\n' || c == b'\r' || c == b'\t')
    || any (λ x. x == c)
        (0x200b ∷ 0x200c ∷ 0x200d ∷ 0x2060 ∷ 0x202a ∷ 0x202b ∷ 0x202c ∷ 0x202d ∷ 0x202e ∷ 0x2066
          ∷ 0x2067 ∷ 0x2068 ∷ 0x2069 ∷ [])

unfoldable pub validate_public_text : Text → ℕ → Text → Publishing Unit
validate_public_text value max_bytes label = do
  reject_if (is_empty (trim value) || ltb max_bytes (len value)) (invalid_input label)
  reject_if (any is_hidden value) (invalid_input label)

unfoldable pub is_public_id_byte : ℕ → Bool
unfolding is_ascii_alphanumeric
is_public_id_byte byte = is_ascii_alphanumeric byte || byte == b'_' || byte == b'-'

unfoldable pub validate_public_id : Text → Publishing Unit
validate_public_id value =
    reject_if
      (is_empty value
        || ltb max_public_id_bytes (len value)
        || not (all is_public_id_byte (as_bytes value)))
      (invalid_input (codes "Accepted revision ID"))

unfoldable pub is_lower_hex : ℕ → Bool
unfolding is_ascii_digit
is_lower_hex byte = is_ascii_digit byte || leb b'a' byte && leb byte b'f'

unfoldable pub validate_sha256 : Text → Publishing Unit
validate_sha256 value =
    reject_if (not (len value == 64) || not (all is_lower_hex (as_bytes value)))
      (invalid_input (codes "SHA-256 digest"))

unfoldable pub validate_attribution : PublicProposalAttributionInput → Publishing Unit
validate_attribution attribution = do
  validate_public_text attribution.provider_label max_provider_label_bytes (codes "provider label")
  validate_public_text attribution.model_label max_model_label_bytes (codes "model label")

-- `if let Some(value) = … { … }`
abbrev pub validate_some : (Text → Publishing Unit) → Option Text → Publishing Unit
validate_some validate none = ok tt
validate_some validate (some value) = validate value

-- The `match` on the session.
unfoldable pub validate_session : PublicAcceptedBindingInput → PublicSessionInput → Publishing Unit
validate_session accepted
      (complete_session proposal_manifest_sha256 decision_receipt_sha256 attribution disposition
        note) =
    do
      reject_if (not (is_some accepted.synapse_artifact_manifest_sha256))
          (invalid_input (codes "complete history requires a Synapse artifact binding"))
      validate_sha256 proposal_manifest_sha256
      validate_sha256 decision_receipt_sha256
      validate_attribution attribution
      validate_some
          (λ text. validate_public_text text max_public_note_bytes (codes "public Decision note"))
          note
validate_session accepted (incomplete_session proposal_manifest_sha256 attribution reason) = do
  validate_sha256 proposal_manifest_sha256
  validate_attribution attribution

unfoldable pub validate_input : PublicationInput → Publishing Unit
validate_input input = do
  validate_public_text input.project.label max_public_label_bytes (codes "project public label")
  validate_public_text input.project.title max_public_title_bytes (codes "public title")
  validate_public_text input.project.summary max_public_summary_bytes (codes "public summary")
  validate_public_id input.accepted.revision_id
  validate_sha256 input.accepted.site_manifest_sha256
  validate_some validate_sha256 input.accepted.synapse_artifact_manifest_sha256
  validate_session input.accepted input.session

-- What `html` writes for a character.
unfoldable pub html_char : ℕ → Text
html_char c =
    if c == b'&'
    then codes "&amp;"
    else if c == b'<'
    then codes "&lt;"
    else if c == b'>'
    then codes "&gt;"
    else if c == b'"'
    then codes "&quot;"
    else if c == b'\''
    then codes "&#39;"
    else c ∷ []

unfoldable pub html : Text → Text
html [] = []
html (c ∷ t) = html_char c ++ html t

unfoldable pub is_markdown_mark : ℕ → Bool
unfolding any
is_markdown_mark c = any (λ x. x == c) (codes "\\`*_{}[]()#+-.!|")

unfoldable pub markdown_char : ℕ → Text
markdown_char c =
    if c == b'&'
    then codes "&amp;"
    else if c == b'<'
    then codes "&lt;"
    else if c == b'>'
    then codes "&gt;"
    else if c == b'\n' || c == b'\r' || c == b'\t'
    then b' ' ∷ []
    else if is_markdown_mark c
    then b'\\' ∷ c ∷ []
    else c ∷ []

unfoldable pub markdown_inline : Text → Text
markdown_inline [] = []
markdown_inline (c ∷ t) = markdown_char c ++ markdown_inline t
