-- ===== src/StaticExport/Receipt.antt =====
-- apps/local-server/src/static_export.rs: the input of an export, its receipt and what it refers to.
use synapsegit_lp_studio.ChangeSet.Types.{Files}
use synapsegit_lp_studio.Prelude.{Bool, List, [], false, true, ℕ, ◌∷◌}
use synapsegit_lp_studio.Prelude.Text.{Bytes, Text, codes}

pub record SchemaIdentity : Type 0 where
  pub name : Text
  pub version : ℕ

pub record ExportOptionsV1 : Type 0 where
  pub entry_point : Text
  pub base_path_profile : Text
  pub external_asset_policy : Text
  pub artifact_format : Text

pub record ExportFileManifestEntryV1 : Type 0 where
  pub path : Text
  pub media_type : Text
  pub byte_length : ℕ
  pub sha256_of_file : Text

pub record ExportFileManifestV1 : Type 0 where
  pub schema : SchemaIdentity
  pub sha256_of_manifest : Text
  pub total_byte_length : ℕ
  pub files : List ExportFileManifestEntryV1

pub data StaticHostingProfile : Type 0 where
  offline_self_contained standalone_static : StaticHostingProfile

pub record ExternalReferenceV1 : Type 0 where
  pub source_path : Text
  pub sanitized_url : Text
  pub origin : Text
  pub userinfo_redacted : Bool
  pub query_redacted : Bool
  pub fragment_redacted : Bool

pub record ExportWarningV1 : Type 0 where
  pub code : Text
  pub message : Text

pub record ExportLimitationV1 : Type 0 where
  pub code : Text
  pub message : Text

pub record ExportValidationReportV1 : Type 0 where
  pub profile : StaticHostingProfile
  pub local_reference_count : ℕ
  pub external_references : List ExternalReferenceV1
  pub external_origins : List Text
  pub dynamic_reference_sources : List Text
  pub warnings : List ExportWarningV1
  pub limitations : List ExportLimitationV1

pub record ExportArchiveIdentityV1 : Type 0 where
  pub sha256_of_archive : Text
  pub byte_length : ℕ

pub record ExportReceiptV1 : Type 0 where
  pub schema : SchemaIdentity
  pub source_revision_id : Text
  pub source_manifest_sha256 : Text
  pub options : ExportOptionsV1
  pub file_manifest : ExportFileManifestV1
  pub validation : ExportValidationReportV1
  pub archive : ExportArchiveIdentityV1
  pub generated_at_utc : Text
  pub application_version : Text

pub record StaticExportInput : Type 0 where
  pub source_revision_id : Text
  pub source_manifest_sha256 : Text
  pub generated_at_utc : Text
  pub entry_point : Text
  pub files : Files

pub record StaticExportArtifact : Type 0 where
  pub zip_bytes : Bytes
  pub receipt : ExportReceiptV1
  pub receipt_json : Bytes
  pub receipt_sha256 : Text

pub data ReferenceResolution : Type 0 where
  ignored runtime_only : ReferenceResolution
  local_file : (path : Text) → ReferenceResolution
  external : (reference : ExternalReferenceV1) → ReferenceResolution

-- The order that `ExternalReferenceV1` derives: its fields, one after the other, false before true.
abbrev pub flag_key : Bool → Text
flag_key false = codes "0"
flag_key true = codes "1"

abbrev pub external_reference_key : ExternalReferenceV1 → List Text
external_reference_key r =
    r.source_path
    ∷ r.sanitized_url
    ∷ r.origin
    ∷ flag_key r.userinfo_redacted
    ∷ flag_key r.query_redacted
    ∷ flag_key r.fragment_redacted
    ∷ []

abbrev pub export_warning_key : ExportWarningV1 → List Text
export_warning_key w = w.code ∷ w.message ∷ []
