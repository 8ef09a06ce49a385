-- ===== src/StaticExport/Generate.antt =====
-- apps/local-server/src/static_export.rs: `generate_static_export`, the checks of its input, the file
pub mod Manifest
pub mod Reviewed
pub mod Artifact
-- manifest and the receipt.
use synapsegit_lp_studio.StaticExport.{
  Exporting, StaticExportError, archive_generation, empty_accepted_site, file_path_collision,
  invalid_entry_point, invalid_file_path, invalid_generated_at, invalid_source_manifest,
  invalid_source_revision_id, invalid_text_encoding, max_source_revision_id_bytes,
  max_timestamp_bytes, serialization,
}
use synapsegit_lp_studio.StaticExport.Receipt.{
  ExportFileManifestEntryV1, ExportReceiptV1, ExportValidationReportV1, SchemaIdentity,
  StaticExportArtifact, StaticExportInput,
}
use synapsegit_lp_studio.StaticExport.Report.{analyze_references}
use synapsegit_lp_studio.Storage.Paths.{is_hex_byte, validate_canonical_path}
use synapsegit_lp_studio.ChangeSet.Types.{Crates, Files, usize_max}
use synapsegit_lp_studio.ChangeSet.Path.{sha256, to_lowercase}
use synapsegit_lp_studio.Prelude.{
  Bool, List, Option, [], all, any, err, if◌then◌else◌, leb, length, list_eq, ltb, map_err, nat_eq,
  none, not, ok, pair_eq, reject_if, some, true, ℕ, ◌&&◌, ◌++◌, ◌+◌, ◌==◌, ◌>>=◌, ◌>>◌, ◌||◌, ◌∷◌,
}
use synapsegit_lp_studio.Prelude.Text.{
  Bytes, Text, as_bytes, codes, drop, ends_with, is_ascii_alphanumeric, is_ascii_digit, is_empty,
  is_one_of, last_or_empty, len, split, starts_with, take, to_ascii_lowercase,
}
use synapsegit_lp_studio.Prelude.Utf8.{from_utf8}
use synapsegit_lp_studio.Prelude.Set.{HashSet}
use synapsegit_lp_studio.Prelude.Map
use synapsegit_lp_studio.Prelude.Set

-- What the export takes from other code: `mime_guess`, `serde_json` for the two values that are
-- written, `deterministic_zip` over the crate `zip`, and the version of the application. `none` is a
-- failure.
pub record ExportCrates : Type 0 where
  pub media_type_from_path : Text → Text
  pub manifest_to_vec : SchemaIdentity → List ExportFileManifestEntryV1 → Option Bytes
  pub receipt_to_vec : ExportReceiptV1 → Option Bytes
  pub deterministic_zip : Files → Option Bytes
  pub pkg_version : Text

abbrev pub export_receipt_schema : SchemaIdentity
export_receipt_schema = record {
  name = codes "org.synapsegit-lp-studio.export-receipt";
  version = 1;
}

abbrev pub export_manifest_schema : SchemaIdentity
export_manifest_schema = record {
  name = codes "org.synapsegit-lp-studio.export-file-manifest";
  version = 1;
}

abbrev pub expect : {A : Type 0} → Option A → StaticExportError → Exporting A
expect none e = err e
expect (some a) e = ok a

unfoldable pub is_html_path : Text → Bool
unfolding to_ascii_lowercase ends_with
is_html_path path =
    let lower = to_ascii_lowercase path in
    ends_with lower (codes ".html") || ends_with lower (codes ".htm")

unfoldable pub reserved_export_path : Crates → Text → Bool
unfolding to_lowercase split is_one_of any last_or_empty starts_with ends_with
reserved_export_path crates path =
    let segments = split b'/' (to_lowercase crates path) in
    let name = last_or_empty segments in
    if any
      (λ segment.
        is_one_of segment (codes ".studio" ∷ codes ".git" ∷ codes ".ssh" ∷ codes ".aws" ∷ []))
      segments
    then true
    else name == codes ".env"
      || starts_with name (codes ".env.")
      || is_one_of name (codes ".envrc" ∷ codes ".netrc" ∷ codes ".npmrc" ∷ codes ".pypirc" ∷ [])
      || ends_with name (codes ".pem")
      || ends_with name (codes ".key")
      || is_one_of name (
          codes "id_rsa" ∷ codes "id_ed25519" ∷ codes "credentials" ∷ codes "credentials.json" ∷ [])

unfoldable pub valid_sha256 : Text → Bool
unfolding len all is_hex_byte as_bytes
valid_sha256 value = len value == 64 && all is_hex_byte (as_bytes value)

abbrev pub is_timestamp_byte : ℕ → Bool
is_timestamp_byte byte =
    is_ascii_digit byte
    || byte == b'-'
    || byte == b':'
    || byte == b'.'
    || byte == b'T'
    || byte == b'Z'

-- `value.get(n..n + 1) == Some(c)` of a text of ASCII characters
abbrev pub is_at : ℕ → Text → ℕ → Bool
is_at n value c = take 1 (drop n value) == c ∷ []

unfoldable pub valid_utc_timestamp : Text → Bool
unfolding len ends_with all is_ascii_digit as_bytes take drop
valid_utc_timestamp value =
    leb 20 (len value)
    && leb (len value) max_timestamp_bytes
    && ends_with value (codes "Z")
    && all is_timestamp_byte (as_bytes value)
    && is_at 4 value b'-'
    && is_at 7 value b'-'
    && is_at 10 value b'T'
    && is_at 13 value b':'
    && is_at 16 value b':'

abbrev pub is_revision_byte : ℕ → Bool
is_revision_byte byte = is_ascii_alphanumeric byte || byte == b'_' || byte == b'-'

unfoldable pub invalid_revision_id : Text → Bool
unfolding len all as_bytes is_ascii_alphanumeric
invalid_revision_id id =
    is_empty id
    || ltb max_source_revision_id_bytes (len id)
    || not (all is_revision_byte (as_bytes id))

-- `files[entry_point]` as a text
unfoldable pub validate_entry_text : Files → Text → Exporting Unit
unfolding Map.get from_utf8
validate_entry_text files entry_point = elim (Map.get entry_point files) [
  | none ↦ err invalid_entry_point
  | some bytes ↦ elim (from_utf8 bytes) [
    | none ↦ err (invalid_text_encoding entry_point)
    | some text ↦ ok tt
  ]
]

abbrev pub is_no_page : Text → Files → Bool
is_no_page entry_point files =
    not (is_html_path entry_point) || not (Map.contains_key entry_point files)

unfoldable pub validate_export_input : Crates → StaticExportInput → Exporting Unit
unfolding invalid_revision_id valid_sha256 valid_utc_timestamp validate_canonical_path is_html_path
    validate_entry_text Map.get
validate_export_input crates input = do
  reject_if (is_empty input.files) empty_accepted_site
  reject_if (invalid_revision_id input.source_revision_id) invalid_source_revision_id
  reject_if (not (valid_sha256 input.source_manifest_sha256)) invalid_source_manifest
  reject_if (not (valid_utc_timestamp input.generated_at_utc)) invalid_generated_at
  map_err (λ e. invalid_entry_point) (validate_canonical_path crates input.entry_point)
  reject_if (is_no_page input.entry_point input.files) invalid_entry_point
  validate_entry_text input.files input.entry_point

abbrev pub manifest_entry : Crates → ExportCrates → Text → Bytes → ExportFileManifestEntryV1
manifest_entry crates others path bytes = record {
  path = path;
  media_type = others.media_type_from_path path;
  byte_length = length bytes;
  sha256_of_file = sha256 crates bytes;
}

-- The loop over the files; `folded_paths` holds the paths that it has seen.
unfoldable pub file_entries_from :
    Crates → ExportCrates → Files → HashSet Text → Exporting (List ExportFileManifestEntryV1)
unfolding validate_canonical_path reserved_export_path Set.contains Set.insert sha256
file_entries_from crates others [] folded_paths = ok []
file_entries_from crates others ((path, bytes) ∷ rest) folded_paths = do
  map_err (λ e. invalid_file_path path) (validate_canonical_path crates path)
  reject_if (reserved_export_path crates path) (invalid_file_path path)
  reject_if (Set.contains (crates.folded path) folded_paths) file_path_collision
  entries ← file_entries_from crates others rest (Set.insert (crates.folded path) folded_paths)
  ok (manifest_entry crates others path bytes ∷ entries)

unfoldable pub canonical_file_entries :
    Crates → ExportCrates → Files → Exporting (List ExportFileManifestEntryV1)
unfolding file_entries_from
canonical_file_entries crates others files = file_entries_from crates others files []

-- The sum of the lengths, while it fits.
unfoldable pub total_from : ℕ → List ExportFileManifestEntryV1 → Exporting ℕ
total_from total [] = ok total
total_from total (file ∷ files) =
    let rest = total_from (total + file.byte_length) files in
    if ltb usize_max (total + file.byte_length) then err serialization else rest

abbrev pub with_newline : Bytes → Bytes
with_newline bytes = bytes ++ b'\n' ∷ []

-- `canonical_json` behind `serde_json::to_vec`
abbrev pub canonical_json : Option Bytes → Exporting Bytes
canonical_json none = err serialization
canonical_json (some bytes) = ok (with_newline bytes)

abbrev pub receipt_of :
    Crates
    → ExportCrates
    → StaticExportInput
    → List ExportFileManifestEntryV1
    → Bytes
    → ℕ
    → ExportValidationReportV1
    → Bytes
    → ExportReceiptV1
receipt_of crates others input entries manifest_bytes total validation zip_bytes = record {
  schema = export_receipt_schema;
  source_revision_id = input.source_revision_id;
  source_manifest_sha256 = input.source_manifest_sha256;
  options = record {
    entry_point = input.entry_point;
    base_path_profile = codes "relative_static_http";
    external_asset_policy = codes "report";
    artifact_format = codes "zip_stored_v1";
  };
  file_manifest = record {
    schema = export_manifest_schema;
    sha256_of_manifest = sha256 crates manifest_bytes;
    total_byte_length = total;
    files = entries;
  };
  validation = validation;
  archive = record { sha256_of_archive = sha256 crates zip_bytes; byte_length = length zip_bytes };
  generated_at_utc = input.generated_at_utc;
  application_version = others.pkg_version;
}

unfoldable pub generate_static_export :
    Crates → ExportCrates → StaticExportInput → Exporting StaticExportArtifact
unfolding validate_export_input canonical_file_entries total_from analyze_references sha256
generate_static_export crates others input = do
  validate_export_input crates input
  entries ← canonical_file_entries crates others input.files
  manifest_bytes ← canonical_json (others.manifest_to_vec export_manifest_schema entries)
  total ← total_from 0 entries
  validation ← analyze_references crates input.files
  zip_bytes ← expect (others.deterministic_zip input.files) archive_generation
  let receipt = receipt_of crates others input entries manifest_bytes total validation zip_bytes
  receipt_json ← canonical_json (others.receipt_to_vec receipt)
  ok (record {
    zip_bytes = zip_bytes;
    receipt = receipt;
    receipt_json = receipt_json;
    receipt_sha256 = sha256 crates receipt_json;
  })
