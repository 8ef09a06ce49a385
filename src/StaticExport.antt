-- ===== src/StaticExport.antt =====
-- apps/local-server/src/static_export.rs: the types, limits and errors of an export.
pub mod Rests
pub mod Tags
pub mod Css
pub mod References
pub mod Scan
pub mod Receipt
pub mod Resolve
pub mod Report
pub mod Generate
pub mod Tests
pub mod Examples
use synapsegit_lp_studio.Prelude.{Bool, List, Option, Result, ℕ}
use synapsegit_lp_studio.Prelude.Text.{Text}

abbrev pub max_source_revision_id_bytes : ℕ
max_source_revision_id_bytes = 128

abbrev pub max_timestamp_bytes : ℕ
max_timestamp_bytes = 40

pub data StaticExportError : Type 0 where
  empty_accepted_site invalid_source_revision_id : StaticExportError
  invalid_source_manifest invalid_generated_at invalid_entry_point : StaticExportError
  invalid_file_path : (path : Text) → StaticExportError
  file_path_collision : StaticExportError
  invalid_text_encoding : (path : Text) → StaticExportError
  malformed_markup : (path : Text) → StaticExportError
  unsupported_base_element : (path : Text) → StaticExportError
  unsafe_reference : (path : Text) → StaticExportError
  missing_local_reference : (source_path resolved_path : Text) → StaticExportError
  archive_generation serialization : StaticExportError

abbrev pub Exporting : Type 0 → Type 0
Exporting = Result StaticExportError

pub record ReferenceScan : Type 0 where
  pub references : List Text
  pub dynamic_capable : Bool
  pub analysis_incomplete : Bool

pub record CssReferenceScan : Type 0 where
  pub css_references_found : List Text
  pub css_incomplete : Bool

-- `MarkupTag` of this file
pub record ExportTag : Type 0 where
  pub name : Text
  pub closing : Bool
  pub attributes : List (Text × Text)
  pub inline_css : Option Text
  pub raw_text_analysis_incomplete : Bool
