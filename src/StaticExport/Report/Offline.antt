-- ===== src/StaticExport/Report/Offline.antt =====
-- apps/local-server/src/static_export.rs: the profile that the report claims.
use synapsegit_lp_studio.Prelude.Map
use synapsegit_lp_studio.StaticExport.{ReferenceScan}
use synapsegit_lp_studio.StaticExport.Scan.{scan_references}
use synapsegit_lp_studio.StaticExport.Receipt.{
  ExportValidationReportV1, ExternalReferenceV1, ReferenceResolution, external, ignored, local_file,
  offline_self_contained, runtime_only, standalone_static,
}
use synapsegit_lp_studio.StaticExport.Resolve.{resolve_reference}
use synapsegit_lp_studio.StaticExport.Report.{
  Analysis, analyze_references, has_file, note_files, nothing_found, profile_of, report_of,
}
use synapsegit_lp_studio.StaticExport.Report.Warned.{IsListed, analyze_references-IsReported}
use synapsegit_lp_studio.ChangeSet.Types.{Crates, Files}
use synapsegit_lp_studio.Prelude.{
  All, Bool-cases, List, [], any, ap, bind-eq-ok, false, if◌then◌else◌, inl, inr, ok, ok_injective,
  refl, some, sym, true, ◌&&◌, ◌∙◌, ◌∷◌, ◌≡◌, ◌⊎◌,
}
use synapsegit_lp_studio.Prelude.Text.{Bytes, Text, is_empty}
use synapsegit_lp_studio.Prelude.Ordered.{contains_by}
use synapsegit_lp_studio.Prelude.Map.{BTreeSet}

-- A reference that needs no other host.
abbrev pub StaysOnSite : Crates → Files → Text → Text → Type 0
StaysOnSite crates files path raw =
    (resolve_reference crates path raw ≡ ok ignored)
    ⊎ (resolve_reference crates path raw ≡ ok runtime_only)
    ⊎ ((target : Text) × (resolve_reference crates path raw ≡ ok (local_file target))
        × (has_file files target ≡ true))

-- The scan of the file is complete and none of its references needs another host.
abbrev pub IsSelfContained : Crates → Files → Text → Bytes → Type 0
IsSelfContained crates files path bytes =
    (scan : ReferenceScan) × (scan_references path bytes ≡ ok scan)
    × (scan.analysis_incomplete ≡ false)
    × All (StaysOnSite crates files path) scan.references

profile_of-offline :
    (found : Analysis) → profile_of found ≡ offline_self_contained → found.externals ≡ []
profile_of-offline found h = no_items found.externals found.incomplete_sources h
  where
    no_items :
        (externals : List ExternalReferenceV1) (incomplete : BTreeSet)
        → (if is_empty externals && is_empty incomplete
            then offline_self_contained
            else standalone_static)
          ≡ offline_self_contained
        → externals ≡ []
    no_items [] incomplete h = refl
    no_items (r ∷ externals) incomplete h = cc

no_externals :
    (crates : Crates) (files : Files) (report : ExportValidationReportV1)
    → analyze_references crates files ≡ ok report
    → report.profile ≡ offline_self_contained
    → report.external_references ≡ []
unfolding analyze_references report_of
no_externals crates files report h offline =
    let (found, noted, last) = bind-eq-ok (note_files crates files files nothing_found) _ h in
    let same : report_of found ≡ report = ok_injective last in
    sym (ap (λ r. r.external_references) same)
    ∙ profile_of-offline found (ap (λ r. r.profile) same ∙ offline)

IsListed-StaysOnSite :
    (crates : Crates) (files : Files) (report : ExportValidationReportV1) (path raw : Text)
    (resolution : ReferenceResolution)
    → report.external_references ≡ []
    → resolve_reference crates path raw ≡ ok resolution
    → IsListed files path report resolution
    → StaysOnSite crates files path raw
unfolding contains_by any
IsListed-StaysOnSite crates files report path raw ignored offline e l = inl e
IsListed-StaysOnSite crates files report path raw runtime_only offline e l = inr (inl e)
IsListed-StaysOnSite crates files report path raw (local_file target) offline e l =
    inr (inr (target, e, l))
IsListed-StaysOnSite crates files report path raw (external r) offline e l =
    let there = rw offline at l.0 in absurd (cc there)

listed-StaysOnSite :
    (crates : Crates) (files : Files) (report : ExportValidationReportV1) (path : Text)
    (references : List Text)
    → report.external_references ≡ []
    → All
        (λ raw.
          (resolution : ReferenceResolution) × (resolve_reference crates path raw ≡ ok resolution)
          × IsListed files path report resolution)
        references
    → All (StaysOnSite crates files path) references
listed-StaysOnSite crates files report path [] online h = tt
listed-StaysOnSite crates files report path (raw ∷ references) online ((resolution, e, l), rest) = (
  IsListed-StaysOnSite crates files report path raw resolution online e l,
  listed-StaysOnSite crates files report path references online rest,
)

-- When the receipt claims that a site is offline and self-contained, every file of it was scanned
-- completely, and each reference in it leads to a file of the site, is one that is not followed, or
-- is made by a script at run time: none leads to another host.
pub offline-IsSelfContained :
    (crates : Crates) (files : Files) (report : ExportValidationReportV1) (path : Text)
    (bytes : Bytes)
    → analyze_references crates files ≡ ok report
    → report.profile ≡ offline_self_contained
    → Map.get path files ≡ some bytes
    → IsSelfContained crates files path bytes
offline-IsSelfContained crates files report path bytes h offline there =
    let reported = analyze_references-IsReported crates files report path bytes h there in
    (
      reported.scan,
      reported.scanned,
      elim (Bool-cases reported.scan.analysis_incomplete) [
        | inl incomplete ↦
            let clash : offline_self_contained ≡ standalone_static =
              sym offline ∙ reported.incomplete_online incomplete in
            absurd (cc clash)
        | inr complete ↦ complete
      ],
      listed-StaysOnSite crates files report path reported.scan.references
          (no_externals crates files report h offline) reported.references_listed,
    )
