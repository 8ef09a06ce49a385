-- ===== src/StaticExport/Report/Sound.antt =====
-- apps/local-server/src/static_export.rs: where the items of the report come from.
use synapsegit_lp_studio.StaticExport.{Exporting, ReferenceScan}
use synapsegit_lp_studio.StaticExport.Scan.{scan_references}
use synapsegit_lp_studio.StaticExport.Receipt.{
  ExportValidationReportV1, ExternalReferenceV1, ReferenceResolution, external,
  external_reference_key, ignored, local_file, runtime_only,
}
use synapsegit_lp_studio.StaticExport.Resolve.{resolve_reference}
use synapsegit_lp_studio.StaticExport.Report.{
  Analysis, analyze_references, has_file, note_files, note_references, note_resolution, note_scan,
  nothing_found, report_of,
}
use synapsegit_lp_studio.ChangeSet.Types.{Crates, Files, usize_max}
use synapsegit_lp_studio.Prelude.{
  ==_iff, Bool-cases, Has, List, [], any, ap, arith, bind-eq-ok, false, inl, inr, list_eq, nat_eq,
  ok, ok_injective, pair_eq, refl, subst, sym, true, ◌+◌, ◌==◌, ◌∙◌, ◌∷◌, ◌≡◌, ◌⊎◌,
}
use synapsegit_lp_studio.Prelude.Text.{Bytes, Text}
use synapsegit_lp_studio.Prelude.Ordered.{contains-insert_by, contains_by, insert_by}

-- The file has a reference that leads to this place on another host.
abbrev pub LeadsOut : Crates → ExternalReferenceV1 → Text × Bytes → Type 0
LeadsOut crates r (path, bytes) =
    (scan : ReferenceScan) × (scan_references path bytes ≡ ok scan)
    × Has
        (λ raw.
          (s : ExternalReferenceV1) × (resolve_reference crates path raw ≡ ok (external s))
          × (external_reference_key s ≡ external_reference_key r))
        scan.references

abbrev pub IsIncomplete : Text × Bytes → Type 0
IsIncomplete (path, bytes) =
    (scan : ReferenceScan) × (scan_references path bytes ≡ ok scan)
    × (scan.analysis_incomplete ≡ true)

abbrev Contains : ExternalReferenceV1 → Analysis → Type 0
Contains r found = contains_by external_reference_key r found.externals ≡ true

inserted_other :
    (s r : ExternalReferenceV1) (externals : List ExternalReferenceV1)
    → (external_reference_key s == external_reference_key r) ≡ false
    → contains_by external_reference_key r (insert_by external_reference_key s externals) ≡ true
    → contains_by external_reference_key r externals ≡ true
unfolding contains_by
inserted_other s r externals other there =
    ground (arith, contains-insert_by external_reference_key s r externals)

note_resolution_sound :
    (files : Files) (source_path : Text) (resolution : ReferenceResolution) (a b : Analysis)
    (r : ExternalReferenceV1)
    → note_resolution files source_path resolution a ≡ ok b
    → Contains r b
    → ((s : ExternalReferenceV1) × (resolution ≡ external s)
        × (external_reference_key s ≡ external_reference_key r))
      ⊎ Contains r a
unfolding note_resolution
note_resolution_sound files source_path ignored a b r h c =
    inr (subst (Contains r) (sym (ok_injective h)) c)
note_resolution_sound files source_path runtime_only a b r h c =
    inr (subst (Contains r) (sym (ok_injective h)) c)
note_resolution_sound files source_path (local_file path) a b r h c =
    elim (Bool-cases (a.local_count == usize_max)) [
      | inl full ↦ absurd (ground arith)
      | inr fits ↦ elim (Bool-cases (has_file files path)) [
        | inr missing ↦ absurd (ground arith)
        | inl there ↦
            let counted : ◌≡◌ {A = Exporting Analysis}
                (ok (record a { local_count = a.local_count + 1 })) (ok b) =
              ground arith in
            inr (subst (Contains r) (sym (ok_injective counted)) c)
      ]
    ]
note_resolution_sound files source_path (external s) a b r h c =
    let there = subst (Contains r) (sym (ok_injective h)) c in
    elim (Bool-cases (external_reference_key s == external_reference_key r)) [
      | inl same ↦
          inl (s, refl, (==_iff (external_reference_key s) (external_reference_key r)).0 same)
      | inr other ↦ inr (inserted_other s r a.externals other there)
    ]

note_references_sound :
    (crates : Crates) (files : Files) (source_path : Text) (references : List Text) (a b : Analysis)
    (r : ExternalReferenceV1)
    → note_references crates files source_path references a ≡ ok b
    → Contains r b
    → Has
        (λ raw.
          (s : ExternalReferenceV1) × (resolve_reference crates source_path raw ≡ ok (external s))
          × (external_reference_key s ≡ external_reference_key r))
        references
      ⊎ Contains r a
unfolding note_references
note_references_sound crates files source_path [] a b r h c =
    inr (subst (Contains r) (sym (ok_injective h)) c)
note_references_sound crates files source_path (raw ∷ references) a b r h c =
    let (resolution, e, h₁) = bind-eq-ok (resolve_reference crates source_path raw) _ h in
    let (m, noted, h₂) = bind-eq-ok (note_resolution files source_path resolution a) _ h₁ in
    elim (note_references_sound crates files source_path references m b r h₂ c) [
      | inl later ↦ inl (inr later)
      | inr before ↦ elim (note_resolution_sound files source_path resolution a m r noted before) [
        | inl (s, is_external, same) ↦ inl (inl (s, e ∙ ap ok is_external, same))
        | inr first ↦ inr first
      ]
    ]

note_files_sound :
    (crates : Crates) (files rest : Files) (a b : Analysis) (r : ExternalReferenceV1)
    → note_files crates files rest a ≡ ok b
    → Contains r b
    → Has (LeadsOut crates r) rest ⊎ Contains r a
unfolding note_files note_scan
note_files_sound crates files [] a b r h c = inr (subst (Contains r) (sym (ok_injective h)) c)
note_files_sound crates files ((source, content) ∷ rest) a b r h c =
    let (scan, scanned, h₁) = bind-eq-ok (scan_references source content) _ h in
    let (m, noted, h₂) =
      bind-eq-ok (note_references crates files source scan.references (note_scan source scan a)) _
        h₁ in
    elim (note_files_sound crates files rest m b r h₂ c) [
      | inl later ↦ inl (inr later)
      | inr before ↦
          elim (note_references_sound crates files source scan.references _ m r noted before) [
            | inl here ↦ inl (inl (scan, scanned, here))
            | inr first ↦ inr first
          ]
    ]

empty_set : (r : ExternalReferenceV1) → contains_by external_reference_key r [] ≡ true → ⊥
unfolding contains_by any
empty_set r h = cc h

-- An external reference of the report is one that a reference of some file leads to.
pub analyze_references_sound :
    (crates : Crates) (files : Files) (report : ExportValidationReportV1) (r : ExternalReferenceV1)
    → analyze_references crates files ≡ ok report
    → contains_by external_reference_key r report.external_references ≡ true
    → Has (LeadsOut crates r) files
unfolding analyze_references report_of
analyze_references_sound crates files report r h there =
    let (found, noted, last) = bind-eq-ok (note_files crates files files nothing_found) _ h in
    let same : report_of found ≡ report = ok_injective last in
    let c : Contains r found =
      subst (λ x. contains_by external_reference_key r x.external_references ≡ true) (sym same)
        there in
    elim (note_files_sound crates files files nothing_found found r noted c) [
      | inl somewhere ↦ somewhere
      | inr nowhere ↦ absurd (empty_set r nowhere)
    ]
