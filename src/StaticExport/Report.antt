-- ===== src/StaticExport/Report.antt =====
-- apps/local-server/src/static_export.rs: `analyze_references`, the report on a site's references.
pub mod Grows
pub mod Complete
pub mod Warned
pub mod Offline
pub mod Sound
use synapsegit_lp_studio.Prelude.Map
use synapsegit_lp_studio.StaticExport.{
  Exporting, ReferenceScan, missing_local_reference, serialization,
}
use synapsegit_lp_studio.StaticExport.Scan.{scan_references}
use synapsegit_lp_studio.StaticExport.Receipt.{
  ExportLimitationV1, ExportValidationReportV1, ExportWarningV1, ExternalReferenceV1,
  ReferenceResolution, StaticHostingProfile, export_warning_key, external, external_reference_key,
  ignored, local_file, offline_self_contained, runtime_only, standalone_static,
}
use synapsegit_lp_studio.StaticExport.Resolve.{redacted, resolve_reference}
use synapsegit_lp_studio.ChangeSet.Types.{Crates, Files, usize_max}
use synapsegit_lp_studio.Prelude.{
  Bool, List, [], any, err, if◌then◌else◌, length, list_eq, nat_eq, not, ok, ℕ, ◌&&◌, ◌++◌, ◌+◌,
  ◌==◌, ◌>>=◌, ◌>>◌, ◌||◌, ◌∷◌,
}
use synapsegit_lp_studio.Prelude.Text.{Text, codes, decimal, is_empty}
use synapsegit_lp_studio.Prelude.Ordered.{collect_by, insert_by}
use synapsegit_lp_studio.Prelude.Map.{BTreeSet}

-- The variables of the loops.
pub record Analysis : Type 0 where
  pub local_count : ℕ
  pub externals : List ExternalReferenceV1
  pub origins : BTreeSet
  pub dynamic_sources : BTreeSet
  pub incomplete_sources : BTreeSet

abbrev pub nothing_found : Analysis
nothing_found = record {
  local_count = 0;
  externals = [];
  origins = [];
  dynamic_sources = [];
  incomplete_sources = [];
}

abbrev pub has_file : Files → Text → Bool
has_file files path =
    Map.contains_key path files || Map.contains_key (path ++ codes "/index.html") files

-- The arms of the match.
unfoldable pub note_resolution : Files → Text → ReferenceResolution → Analysis → Exporting Analysis
unfolding Map.get Map.insert insert_by
note_resolution files source_path ignored found = ok found
note_resolution files source_path runtime_only found =
    ok (record found { dynamic_sources = Map.insert source_path tt found.dynamic_sources })
note_resolution files source_path (local_file resolved_path) found =
    if found.local_count == usize_max
    then err serialization
    else if has_file files resolved_path
    then ok (record found { local_count = found.local_count + 1 })
    else err (missing_local_reference source_path resolved_path)
note_resolution files source_path (external reference) found = ok (record found {
  externals = insert_by external_reference_key reference found.externals;
  origins = Map.insert reference.origin tt found.origins;
})

-- The loop over the references of a file.
unfoldable pub note_references : Crates → Files → Text → List Text → Analysis → Exporting Analysis
unfolding resolve_reference note_resolution
note_references crates files source_path [] found = ok found
note_references crates files source_path (raw_reference ∷ references) found = do
  resolution ← resolve_reference crates source_path raw_reference
  noted ← note_resolution files source_path resolution found
  note_references crates files source_path references noted

unfoldable pub note_scan : Text → ReferenceScan → Analysis → Analysis
unfolding Map.insert
note_scan source_path scan found = record found {
  dynamic_sources =
      if scan.dynamic_capable || scan.analysis_incomplete
      then Map.insert source_path tt found.dynamic_sources
      else found.dynamic_sources;
  incomplete_sources =
      if scan.analysis_incomplete
      then Map.insert source_path tt found.incomplete_sources
      else found.incomplete_sources;
}

-- The loop over the files.
unfoldable pub note_files : Crates → Files → Files → Analysis → Exporting Analysis
unfolding scan_references note_scan note_references
note_files crates files [] found = ok found
note_files crates files ((source_path, bytes) ∷ rest) found = do
  scan ← scan_references source_path bytes
  noted ←
      note_references crates files source_path scan.references (note_scan source_path scan found)
  note_files crates files rest noted

abbrev pub redacts : ExternalReferenceV1 → Bool
redacts reference =
    reference.userinfo_redacted || reference.query_redacted || reference.fragment_redacted

abbrev pub warn_if : Bool → Text → Text → List ExportWarningV1
warn_if condition code message =
    if condition then record { code = code; message = message } ∷ [] else []

abbrev pub counted : ℕ → Text → Text
counted n message = decimal n ++ message

unfoldable pub export_warnings : Analysis → List ExportWarningV1
unfolding decimal any collect_by
export_warnings found =
    collect_by export_warning_key
      (warn_if (not (is_empty found.dynamic_sources)) (codes "dynamic_references_unchecked") (
          counted (length found.dynamic_sources) (
            codes
              " file(s) can construct runtime references that static analysis cannot exhaustively verify."))
        ++ (warn_if (not (is_empty found.incomplete_sources))
              (codes "static_reference_analysis_incomplete")
              (counted (length found.incomplete_sources) (
                codes
                  " file(s) contain escaped, commented, or ambiguous CSS syntax; offline self-containment is not claimed."))
            ++ (warn_if (not (is_empty found.externals)) (codes "external_dependencies_present") (
                  counted (length found.externals) (
                    codes
                      " redacted external HTTP(S) reference(s) remain; this export is not offline self-contained."))
                ++ warn_if (any redacts found.externals) (codes "external_url_components_redacted")
                    (codes
                      "External URL userinfo, query, and fragment values are omitted from the receipt."))))
      []

abbrev pub export_limitations : List ExportLimitationV1
export_limitations =
    record {
      code = codes "dynamic_reference_analysis_best_effort";
      message =
          codes
            "JavaScript-built URLs, runtime fetches, navigation, and framework routing are not exhaustively inspected.";
    }
    ∷ record {
      code = codes "ordinary_static_http_profile";
      message =
          codes
            "The supported profile is ordinary unprivileged static HTTP hosting; direct file:// compatibility is not guaranteed.";
    }
    ∷ []

abbrev pub profile_of : Analysis → StaticHostingProfile
profile_of found =
    if is_empty found.externals && is_empty found.incomplete_sources
    then offline_self_contained
    else standalone_static

unfoldable pub report_of : Analysis → ExportValidationReportV1
unfolding export_warnings
report_of found = record {
  profile = profile_of found;
  local_reference_count = found.local_count;
  external_references = found.externals;
  external_origins = Map.keys found.origins;
  dynamic_reference_sources = Map.keys found.dynamic_sources;
  warnings = export_warnings found;
  limitations = export_limitations;
}

unfoldable pub analyze_references : Crates → Files → Exporting ExportValidationReportV1
unfolding note_files report_of
analyze_references crates files = do
  found ← note_files crates files files nothing_found
  ok (report_of found)
