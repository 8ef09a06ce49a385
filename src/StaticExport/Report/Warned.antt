-- ===== src/StaticExport/Report/Warned.antt =====
-- apps/local-server/src/static_export.rs: what the report of `analyze_references` says of the files.
use synapsegit_lp_studio.StaticExport.{ReferenceScan}
use synapsegit_lp_studio.StaticExport.Scan.{scan_references}
use synapsegit_lp_studio.StaticExport.Receipt.{
  ExportValidationReportV1, ReferenceResolution, external, external_reference_key, ignored,
  local_file, runtime_only, standalone_static,
}
use synapsegit_lp_studio.StaticExport.Resolve.{resolve_reference}
use synapsegit_lp_studio.StaticExport.Report.{
  Analysis, analyze_references, has_file, note_files, nothing_found, report_of,
}
use synapsegit_lp_studio.StaticExport.Report.Grows.{IsNoted}
use synapsegit_lp_studio.StaticExport.Report.Complete.{AreNoted, IsScanned, note_files-IsScanned}
use synapsegit_lp_studio.ChangeSet.Types.{Crates, Files}
use synapsegit_lp_studio.Prelude.{
  All, List, [], arith, bind-eq-ok, false, list_eq, nat_eq, ok, ok_injective, pair_eq, refl, some,
  subst, true, ◌||◌, ◌∷◌, ◌≡◌,
}
use synapsegit_lp_studio.Prelude.Text.{Bytes, Text, is_empty}
use synapsegit_lp_studio.Prelude.Ordered.{contains_by}
use synapsegit_lp_studio.Prelude.Map.{BTreeSet}
use synapsegit_lp_studio.Prelude.Map
use synapsegit_lp_studio.Prelude.Set

-- Where the report has a resolved reference.
abbrev pub IsListed : Files → Text → ExportValidationReportV1 → ReferenceResolution → Type 0
IsListed files source_path report ignored = Unit
IsListed files source_path report runtime_only =
    Set.contains source_path report.dynamic_reference_sources ≡ true
IsListed files source_path report (local_file path) = has_file files path ≡ true
IsListed files source_path report (external r) =
    (contains_by external_reference_key r report.external_references ≡ true)
    × (Set.contains r.origin report.external_origins ≡ true)

-- What the report says of a file.
pub record IsReported (crates : Crates) (files : Files) (report : ExportValidationReportV1)
    (path : Text) (bytes : Bytes) : Type 0 where
  pub scan : ReferenceScan
  pub scanned : scan_references path bytes ≡ ok scan
  pub dynamic_listed :
      (scan.dynamic_capable || scan.analysis_incomplete) ≡ true
      → Set.contains path report.dynamic_reference_sources ≡ true
  pub incomplete_online : scan.analysis_incomplete ≡ true → report.profile ≡ standalone_static
  pub references_listed :
      All
        (λ raw.
          (resolution : ReferenceResolution) × (resolve_reference crates path raw ≡ ok resolution)
          × IsListed files path report resolution)
        scan.references

keys_contain :
    (t : Text) (s : BTreeSet) → Map.contains_key t s ≡ true → Set.contains t (Map.keys s) ≡ true
unfolding Map.get Set.contains
keys_contain t [] h = cc
keys_contain t ((j, w) ∷ s) h = ground (arith, keys_contain t s)

not_empty_of_key : (t : Text) (s : BTreeSet) → Map.contains_key t s ≡ true → is_empty s ≡ false
unfolding Map.get
not_empty_of_key t [] h = cc
not_empty_of_key t (e ∷ s) h = refl

IsNoted-IsListed :
    (files : Files) (path : Text) (found : Analysis) (resolution : ReferenceResolution)
    → IsNoted files path found resolution
    → IsListed files path (report_of found) resolution
unfolding report_of
IsNoted-IsListed files path found ignored h = tt
IsNoted-IsListed files path found runtime_only h = keys_contain path found.dynamic_sources h
IsNoted-IsListed files path found (local_file p) h = h
IsNoted-IsListed files path found (external r) h = (h.0, keys_contain r.origin found.origins h.1)

AreNoted-AreListed :
    (crates : Crates) (files : Files) (path : Text) (found : Analysis) (references : List Text)
    → AreNoted crates files path found references
    → All
        (λ raw.
          (resolution : ReferenceResolution) × (resolve_reference crates path raw ≡ ok resolution)
          × IsListed files path (report_of found) resolution)
        references
AreNoted-AreListed crates files path found [] h = tt
AreNoted-AreListed crates files path found (raw ∷ references) ((resolution, e, noted), rest) = (
  (resolution, e, IsNoted-IsListed files path found resolution noted),
  AreNoted-AreListed crates files path found references rest,
)

IsScanned-IsReported :
    (crates : Crates) (files : Files) (found : Analysis) (path : Text) (bytes : Bytes)
    → IsScanned crates files found path bytes
    → IsReported crates files (report_of found) path bytes
unfolding report_of
IsScanned-IsReported crates files found path bytes h = record {
  scan = h.scan;
  scanned = h.scanned;
  dynamic_listed = λ d. keys_contain path found.dynamic_sources (h.dynamic_noted d);
  incomplete_online =
      λ i. ground (arith, not_empty_of_key path found.incomplete_sources (h.incomplete_noted i));
  references_listed =
      AreNoted-AreListed crates files path found h.scan.references h.references_noted;
}

-- When the analysis of a site succeeds, each file was scanned, and each of its references was
-- resolved: one to a file of the site leads to a file that is there, one to another host is among
-- the external references with its origin among the origins, and one that only a script can follow
-- makes its file a dynamic source. A file with a scan that is dynamic or incomplete is a dynamic
-- source, and one incomplete scan is enough for the profile that does not claim to be offline.
pub analyze_references-IsReported :
    (crates : Crates) (files : Files) (report : ExportValidationReportV1) (path : Text)
    (bytes : Bytes)
    → analyze_references crates files ≡ ok report
    → Map.get path files ≡ some bytes
    → IsReported crates files report path bytes
unfolding analyze_references
analyze_references-IsReported crates files report path bytes h there =
    let (found, noted, last) = bind-eq-ok (note_files crates files files nothing_found) _ h in
    let (grows, scanned) = note_files-IsScanned crates files files nothing_found found noted in
    subst (λ r. IsReported crates files r path bytes) (ok_injective last)
      (IsScanned-IsReported crates files found path bytes (scanned path bytes there))
