-- ===== src/StaticExport/Generate/Artifact.antt =====
-- apps/local-server/src/static_export.rs: what `generate_static_export` returns.
use synapsegit_lp_studio.StaticExport.{
  StaticExportError, archive_generation, empty_accepted_site, invalid_entry_point,
  invalid_generated_at, invalid_source_manifest, invalid_source_revision_id,
}
use synapsegit_lp_studio.StaticExport.Receipt.{
  ExportFileManifestEntryV1, StaticExportArtifact, StaticExportInput, ExportFileManifestV1,
}
use synapsegit_lp_studio.StaticExport.Report.{analyze_references}
use synapsegit_lp_studio.StaticExport.Generate.{
  ExportCrates, canonical_file_entries, canonical_json, expect, export_manifest_schema,
  file_entries_from, generate_static_export, invalid_revision_id, is_html_path, receipt_of,
  total_from, valid_sha256, valid_utc_timestamp, validate_entry_text, validate_export_input,
  is_no_page,
}
use synapsegit_lp_studio.StaticExport.Generate.Manifest.{
  IsManifest, file_entries_from-IsManifest, lengths, total_from_lem,
}
use synapsegit_lp_studio.Storage.Paths.{validate_canonical_path}
use synapsegit_lp_studio.Storage.Paths.Below.{validate_canonical_path-IsBelowRoot}
use synapsegit_lp_studio.ChangeSet.Types.{Crates, Files, usize_max}
use synapsegit_lp_studio.ChangeSet.Path.{sha256}
use synapsegit_lp_studio.ChangeSet.Path.Below.{IsBelowRoot}
use synapsegit_lp_studio.Prelude.{
  List, Option, Option-cases, [], arith, bind-eq-ok, inl, inr, length, map_err, map_err-eq-ok, none,
  not, ok, ok_injective, passes_of_reject, refl, reject_if, seq-eq-ok, some, subst, sym, true, ℕ,
  ◌∙◌, ◌≡◌, ◌≤◌,
}
use synapsegit_lp_studio.Prelude.Text.{Bytes, Text, is_empty}
use synapsegit_lp_studio.Prelude.Utf8.{from_utf8}
use synapsegit_lp_studio.Prelude.Map

-- The entry point of the input is a page that can be read.
abbrev pub HasEntryPage : Crates → StaticExportInput → Type 0
HasEntryPage crates input =
    (bytes : Bytes) × (text : Text) × (Map.get input.entry_point input.files ≡ some bytes)
    × (from_utf8 bytes ≡ some text)
    × (is_html_path input.entry_point ≡ true)
    × IsBelowRoot input.entry_point

-- The hash is that of the encoded entries.
abbrev pub IsManifestHash : Crates → ExportCrates → ExportFileManifestV1 → Type 0
IsManifestHash crates others manifest =
    (bytes : Bytes) × (canonical_json (others.manifest_to_vec export_manifest_schema manifest.files)
      ≡ ok bytes)
    × (manifest.sha256_of_manifest ≡ sha256 crates bytes)

-- How the artifact describes its input and itself.
pub record IsExported (crates : Crates) (others : ExportCrates) (input : StaticExportInput)
    (artifact : StaticExportArtifact) : Type 0 where
  pub entry_page : HasEntryPage crates input
  pub same_source : artifact.receipt.source_revision_id ≡ input.source_revision_id
  pub same_manifest : artifact.receipt.source_manifest_sha256 ≡ input.source_manifest_sha256
  pub same_time : artifact.receipt.generated_at_utc ≡ input.generated_at_utc
  pub same_entry : artifact.receipt.options.entry_point ≡ input.entry_point
  pub manifest : IsManifest crates others input.files [] artifact.receipt.file_manifest.files
  pub manifest_hash : IsManifestHash crates others artifact.receipt.file_manifest
  pub total :
      artifact.receipt.file_manifest.total_byte_length
      ≡ lengths artifact.receipt.file_manifest.files
  pub total_fits : artifact.receipt.file_manifest.total_byte_length ≤ usize_max
  pub analyzed : analyze_references crates input.files ≡ ok artifact.receipt.validation
  pub archived : others.deterministic_zip input.files ≡ some artifact.zip_bytes
  pub archive_hash : artifact.receipt.archive.sha256_of_archive ≡ sha256 crates artifact.zip_bytes
  pub archive_length : artifact.receipt.archive.byte_length ≡ length artifact.zip_bytes
  pub encoded : canonical_json (others.receipt_to_vec artifact.receipt) ≡ ok artifact.receipt_json
  pub receipt_hash : artifact.receipt_sha256 ≡ sha256 crates artifact.receipt_json

validate_entry_text-reads :
    (files : Files) (entry_point : Text)
    → validate_entry_text files entry_point ≡ ok tt
    → (bytes : Bytes) × (text : Text) × (Map.get entry_point files ≡ some bytes)
      × (from_utf8 bytes ≡ some text)
unfolding validate_entry_text
validate_entry_text-reads files entry_point h = elim (Option-cases (Map.get entry_point files)) [
  | inl missing ↦ absurd (ground arith)
  | inr (bytes, there) ↦ elim (Option-cases (from_utf8 bytes)) [
    | inl unreadable ↦ absurd (ground arith)
    | inr (text, readable) ↦ (bytes, text, there, readable)
  ]
]

validate_export_input-HasEntryPage :
    (crates : Crates) (input : StaticExportInput)
    → validate_export_input crates input ≡ ok tt
    → HasEntryPage crates input
unfolding validate_export_input
validate_export_input-HasEntryPage crates input h =
    let (filled, h₁) = seq-eq-ok (reject_if (is_empty input.files) empty_accepted_site) _ h in
    let (revision, h₂) =
      seq-eq-ok
        (reject_if (invalid_revision_id input.source_revision_id) invalid_source_revision_id) _
        h₁ in
    let (manifest, h₃) =
      seq-eq-ok
        (reject_if (not (valid_sha256 input.source_manifest_sha256)) invalid_source_manifest) _
        h₂ in
    let (generated, h₄) =
      seq-eq-ok (reject_if (not (valid_utc_timestamp input.generated_at_utc)) invalid_generated_at)
        _ h₃ in
    let (canonical, h₅) =
      seq-eq-ok
        (map_err (λ e. invalid_entry_point) (validate_canonical_path crates input.entry_point)) _
        h₄ in
    let (page, h₆) =
      seq-eq-ok (reject_if (is_no_page input.entry_point input.files) invalid_entry_point) _ h₅ in
    let is_page =
      passes_of_reject (is_no_page input.entry_point input.files) invalid_entry_point page in
    let (bytes, text, there, readable) =
      validate_entry_text-reads input.files input.entry_point h₆ in
    (
      bytes,
      text,
      there,
      readable,
      ground arith,
      validate_canonical_path-IsBelowRoot crates input.entry_point
          (map_err-eq-ok _ (validate_canonical_path crates input.entry_point) tt canonical),
    )

total_of :
    (files : List ExportFileManifestEntryV1) (total : ℕ)
    → total_from 0 files ≡ ok total
    → (total ≡ lengths files) × (total ≤ usize_max)
total_of files total h =
    let is_sum = sym (total_from_lem 0 files (omega arith)) ∙ h in (ground arith, ground arith)

expect-some :
    {A : Type 0} (o : Option A) (e : StaticExportError) (a : A) → expect o e ≡ ok a → o ≡ some a
expect-some none e a h = cc
expect-some (some b) e a h = cc

-- An export that succeeds returns a receipt that describes it: the revision, the time and the page it
-- starts at are those asked for, and the page is a file of the site that can be read; the manifest has
-- an entry for each file with its length and hash, and the manifest's hash is that of these entries,
-- encoded; the total is the sum of the lengths, and fits; the report is the analysis of these files;
-- the archive is that of these files, with its hash and length; and the receipt's bytes are this
-- receipt, encoded, and its hash is that of these bytes.
pub generate_static_export-IsExported :
    (crates : Crates) (others : ExportCrates) (input : StaticExportInput)
    (artifact : StaticExportArtifact)
    → generate_static_export crates others input ≡ ok artifact
    → IsExported crates others input artifact
unfolding generate_static_export canonical_file_entries
generate_static_export-IsExported crates others input artifact h =
    let (valid, h₁) = seq-eq-ok (validate_export_input crates input) _ h in
    let (entries, are_entries, h₂) =
      bind-eq-ok (file_entries_from crates others input.files []) _ h₁ in
    let (manifest_bytes, written, h₃) =
      bind-eq-ok (canonical_json (others.manifest_to_vec export_manifest_schema entries)) _ h₂ in
    let (total, is_total, h₄) = bind-eq-ok (total_from 0 entries) _ h₃ in
    let (validation, analyzed, h₅) = bind-eq-ok (analyze_references crates input.files) _ h₄ in
    let (zip_bytes, archived, h₆) =
      bind-eq-ok (expect (others.deterministic_zip input.files) archive_generation) _ h₅ in
    let receipt =
      receipt_of crates others input entries manifest_bytes total validation zip_bytes in
    let (receipt_json, encoded, last) =
      bind-eq-ok (canonical_json (others.receipt_to_vec receipt)) _ h₆ in
    let (is_sum, fits) = total_of entries total is_total in
    subst (IsExported crates others input) (ok_injective last) (record {
      entry_page = validate_export_input-HasEntryPage crates input valid;
      same_source = refl;
      same_manifest = refl;
      same_time = refl;
      same_entry = refl;
      manifest = file_entries_from-IsManifest crates others input.files [] entries are_entries;
      manifest_hash = (manifest_bytes, written, refl);
      total = is_sum;
      total_fits = fits;
      analyzed = analyzed;
      archived = expect-some (others.deterministic_zip input.files) _ zip_bytes archived;
      archive_hash = refl;
      archive_length = refl;
      encoded = encoded;
      receipt_hash = refl;
    })
