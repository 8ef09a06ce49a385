-- ===== src/StaticExport/Report/Complete.antt =====
-- apps/local-server/src/static_export.rs: what a finished analysis says of each reference.
use synapsegit_lp_studio.StaticExport.{ReferenceScan}
use synapsegit_lp_studio.StaticExport.Scan.{scan_references}
use synapsegit_lp_studio.StaticExport.Receipt.{ReferenceResolution}
use synapsegit_lp_studio.StaticExport.Resolve.{resolve_reference}
use synapsegit_lp_studio.StaticExport.Report.{
  Analysis, note_files, note_references, note_resolution, note_scan,
}
use synapsegit_lp_studio.StaticExport.Report.Grows.{
  Grows, Grows-refl, Grows-trans, IsNoted, IsNoted-stays, insert-there, note_resolution-IsNoted,
  note_scan-Grows,
}
use synapsegit_lp_studio.ChangeSet.Types.{Crates, Files}
use synapsegit_lp_studio.Prelude.{
  ==_iff, All, Bool-cases, List, [], arith, bind-eq-ok, inl, inr, list_eq, nat_eq, ok, ok_injective,
  some, subst, true, ◌==◌, ◌||◌, ◌∷◌, ◌≡◌,
}
use synapsegit_lp_studio.Prelude.Text.{Bytes, Text}
use synapsegit_lp_studio.Prelude.Map

-- Every reference is resolved and noted.
abbrev pub AreNoted : Crates → Files → Text → Analysis → List Text → Type 0
AreNoted crates files source_path found references =
    All
      (λ raw.
        (resolution : ReferenceResolution) × (resolve_reference crates source_path raw
          ≡ ok resolution)
        × IsNoted files source_path found resolution)
      references

-- The file was scanned, and what the scan shows is noted.
pub record IsScanned (crates : Crates) (files : Files) (found : Analysis) (path : Text)
    (bytes : Bytes) : Type 0 where
  pub scan : ReferenceScan
  pub scanned : scan_references path bytes ≡ ok scan
  pub dynamic_noted :
      (scan.dynamic_capable || scan.analysis_incomplete) ≡ true
      → Map.contains_key path found.dynamic_sources ≡ true
  pub incomplete_noted :
      scan.analysis_incomplete ≡ true → Map.contains_key path found.incomplete_sources ≡ true
  pub references_noted : AreNoted crates files path found scan.references

AreNoted-stays :
    (crates : Crates) (files : Files) (source_path : Text) (references : List Text) {a b : Analysis}
    → Grows a b
    → AreNoted crates files source_path a references
    → AreNoted crates files source_path b references
AreNoted-stays crates files source_path [] g h = tt
AreNoted-stays crates files source_path (raw ∷ references) g ((resolution, e, noted), rest) = (
  (resolution, e, IsNoted-stays files source_path resolution g noted),
  AreNoted-stays crates files source_path references g rest,
)

IsScanned-stays :
    (crates : Crates) (files : Files) (path : Text) (bytes : Bytes) {a b : Analysis}
    → Grows a b
    → IsScanned crates files a path bytes
    → IsScanned crates files b path bytes
IsScanned-stays crates files path bytes g h = record {
  scan = h.scan;
  scanned = h.scanned;
  dynamic_noted = λ d. g.dynamic_stay path (h.dynamic_noted d);
  incomplete_noted = λ i. g.incomplete_stay path (h.incomplete_noted i);
  references_noted = AreNoted-stays crates files path h.scan.references g h.references_noted;
}

note_references-AreNoted :
    (crates : Crates) (files : Files) (source_path : Text) (references : List Text) (a b : Analysis)
    → note_references crates files source_path references a ≡ ok b
    → Grows a b × AreNoted crates files source_path b references
unfolding note_references
note_references-AreNoted crates files source_path [] a b h =
    subst (λ c. Grows a c × AreNoted crates files source_path c []) (ok_injective h)
      (Grows-refl a, tt)
note_references-AreNoted crates files source_path (raw ∷ references) a b h =
    let (resolution, e, h₁) = bind-eq-ok (resolve_reference crates source_path raw) _ h in
    let (c, noted, h₂) = bind-eq-ok (note_resolution files source_path resolution a) _ h₁ in
    let (first, here) = note_resolution-IsNoted files source_path resolution a c noted in
    let (later, rest) = note_references-AreNoted crates files source_path references c b h₂ in
    (
      Grows-trans first later,
      ((resolution, e, IsNoted-stays files source_path resolution later here), rest),
    )

note_file :
    (crates : Crates) (files : Files) (path : Text) (bytes : Bytes) (scan : ReferenceScan)
    (a b : Analysis)
    → scan_references path bytes ≡ ok scan
    → note_references crates files path scan.references (note_scan path scan a) ≡ ok b
    → Grows a b × IsScanned crates files b path bytes
unfolding note_scan
note_file crates files path bytes scan a b scanned h =
    let (later, noted) =
      note_references-AreNoted crates files path scan.references (note_scan path scan a) b h in
    (
      Grows-trans (note_scan-Grows path scan a) later,
      record {
        scan = scan;
        scanned = scanned;
        dynamic_noted =
            λ d. later.dynamic_stay path (ground (arith, insert-there path a.dynamic_sources));
        incomplete_noted = λ i.
            later.incomplete_stay path (ground (arith, insert-there path a.incomplete_sources));
        references_noted = noted;
      },
    )

pub note_files-IsScanned :
    (crates : Crates) (files rest : Files) (a b : Analysis)
    → note_files crates files rest a ≡ ok b
    → Grows a b
      × ((path : Text) (bytes : Bytes)
          → Map.get path rest ≡ some bytes
          → IsScanned crates files b path bytes)
unfolding note_files Map.get
note_files-IsScanned crates files [] a b h =
    (subst (Grows a) (ok_injective h) (Grows-refl a), λ path bytes there. cc)
note_files-IsScanned crates files ((source, content) ∷ rest) a b h =
    let (scan, scanned, h₁) = bind-eq-ok (scan_references source content) _ h in
    let (c, noted, h₂) =
      bind-eq-ok (note_references crates files source scan.references (note_scan source scan a)) _
        h₁ in
    let (first, here) = note_file crates files source content scan a c scanned noted in
    let (later, others) = note_files-IsScanned crates files rest c b h₂ in
    (
      Grows-trans first later,
      λ path bytes there. elim (Bool-cases (source == path)) [
        | inl same ↦
            let content-is : content ≡ bytes = ground arith in
            subst (λ u. IsScanned crates files b u bytes) ((==_iff source path).0 same)
              (subst (IsScanned crates files b source) content-is
                (IsScanned-stays crates files source content later here))
        | inr other ↦ others path bytes (ground arith)
      ],
    )
