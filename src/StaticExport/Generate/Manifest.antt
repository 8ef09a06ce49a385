-- ===== src/StaticExport/Generate/Manifest.antt =====
-- apps/local-server/src/static_export.rs: what the file manifest and the receipt of an export hold.
use synapsegit_lp_studio.StaticExport.{file_path_collision, invalid_file_path, serialization}
use synapsegit_lp_studio.StaticExport.Receipt.{ExportFileManifestEntryV1}
use synapsegit_lp_studio.StaticExport.Generate.{
  ExportCrates, file_entries_from, manifest_entry, reserved_export_path, total_from,
  canonical_file_entries,
}
use synapsegit_lp_studio.Storage.Paths.{validate_canonical_path}
use synapsegit_lp_studio.ChangeSet.Types.{Crates, Files, usize_max}
use synapsegit_lp_studio.Prelude.{
  All, Bool, Bool-cases, List, [], ap, arith, bind-eq-ok, err, false, if◌then◌else◌, inl, inr,
  list_eq, ltb, map, map_err, map_err-eq-ok, nat_eq, not, ok, ok_injective, pair_eq,
  passes_of_reject, refl, reject_if, seq-eq-ok, sym, true, ℕ, ◌&&◌, ◌+◌, ◌↔◌, ◌∙◌, ◌∷◌, ◌≡◌, ◌≤◌,
}
use synapsegit_lp_studio.Prelude.Text.{Bytes, Text}
use synapsegit_lp_studio.Prelude.Set.{HashSet}
use synapsegit_lp_studio.Prelude.Set

-- The lengths of the files together.
unfoldable pub lengths : List ExportFileManifestEntryV1 → ℕ
lengths [] = 0
lengths (file ∷ files) = file.byte_length + lengths files

-- The total of the manifest is the sum of the lengths, and the export fails when, and only when, the
-- sum does not fit in the machine's word, whichever of the additions it is that overflows.
pub total_from_lem :
    (total : ℕ) (files : List ExportFileManifestEntryV1)
    → total ≤ usize_max
    → total_from total files ≡ (
        if ltb usize_max (total + lengths files)
        then err serialization
        else ok (total + lengths files))
unfolding total_from lengths
total_from_lem total [] fits = ground arith
total_from_lem total (file ∷ files) fits =
    elim (Bool-cases (ltb usize_max (total + file.byte_length))) [
      | inl over ↦ ground arith
      | inr within ↦ ground (arith, total_from_lem (total + file.byte_length) files (ground arith))
    ]

abbrev pub entry_of : Crates → ExportCrates → Text × Bytes → ExportFileManifestEntryV1
entry_of crates others (path, bytes) = manifest_entry crates others path bytes

-- A path that an export takes.
abbrev pub IsExportable : Crates → Text → Type 0
IsExportable crates path =
    (validate_canonical_path crates path ≡ ok tt) × (reserved_export_path crates path ≡ false)

-- No path is a seen one, nor one of the paths before it, up to case.
abbrev pub all_distinct : Crates → Files → HashSet Text → Bool
all_distinct crates [] folded_paths = true
all_distinct crates ((path, bytes) ∷ rest) folded_paths =
    not (Set.contains (crates.folded path) folded_paths)
    && all_distinct crates rest (Set.insert (crates.folded path) folded_paths)

abbrev pub IsManifest :
    Crates → ExportCrates → Files → HashSet Text → List ExportFileManifestEntryV1 → Type 0
IsManifest crates others files folded_paths entries =
    (entries ≡ map (entry_of crates others) files)
    × All (λ file. IsExportable crates file.0) files
    × (all_distinct crates files folded_paths ≡ true)

pub file_entries_from-IsManifest :
    (crates : Crates) (others : ExportCrates) (files : Files) (folded_paths : HashSet Text)
    (entries : List ExportFileManifestEntryV1)
    → file_entries_from crates others files folded_paths ≡ ok entries
    → IsManifest crates others files folded_paths entries
unfolding file_entries_from
file_entries_from-IsManifest crates others [] folded_paths entries h =
    (sym (ok_injective h), tt, refl)
file_entries_from-IsManifest crates others ((path, bytes) ∷ rest) folded_paths entries h =
    let seen = Set.insert (crates.folded path) folded_paths in
    let (canonical, h₁) =
      seq-eq-ok (map_err (λ e. invalid_file_path path) (validate_canonical_path crates path)) _ h in
    let (free, h₂) =
      seq-eq-ok (reject_if (reserved_export_path crates path) (invalid_file_path path)) _ h₁ in
    let (new, h₃) =
      seq-eq-ok (reject_if (Set.contains (crates.folded path) folded_paths) file_path_collision) _
        h₂ in
    let (more, e, last) = bind-eq-ok (file_entries_from crates others rest seen) _ h₃ in
    let (is_map, exportable, distinct) =
      file_entries_from-IsManifest crates others rest seen more e in
    (
      sym (ok_injective last) ∙ ap (◌∷◌ (manifest_entry crates others path bytes)) is_map,
      (
        (
          map_err-eq-ok _ (validate_canonical_path crates path) tt canonical,
          passes_of_reject _ _ free,
        ),
        exportable,
      ),
      ground (arith, passes_of_reject _ _ new),
    )

pub file_entries_from_accepts :
    (crates : Crates) (others : ExportCrates) (files : Files) (folded_paths : HashSet Text)
    → All (λ file. IsExportable crates file.0) files
    → all_distinct crates files folded_paths ≡ true
    → file_entries_from crates others files folded_paths ≡ ok (map (entry_of crates others) files)
unfolding file_entries_from
file_entries_from_accepts crates others [] folded_paths exportable distinct = refl
file_entries_from_accepts crates others ((path, bytes) ∷ rest) folded_paths
      ((canonical, free), exportable) distinct =
    let seen = Set.insert (crates.folded path) folded_paths in
    let new : Set.contains (crates.folded path) folded_paths ≡ false = ground arith in
    let more = file_entries_from_accepts crates others rest seen exportable (ground arith) in
    rw (canonical, free, more, new) refl

-- The manifest of a site that is accepted has one entry for each file, in order, and every path is
-- canonical, not reserved, and differs from the others up to case; and every such site is accepted.
pub canonical_file_entries_iff :
    (crates : Crates) (others : ExportCrates) (files : Files)
    (entries : List ExportFileManifestEntryV1)
    → (canonical_file_entries crates others files ≡ ok entries)
      ↔ IsManifest crates others files [] entries
unfolding canonical_file_entries
canonical_file_entries_iff crates others files entries = (
  file_entries_from-IsManifest crates others files [] entries,
  λ (is_map, exportable, distinct).
      file_entries_from_accepts crates others files [] exportable distinct ∙ ap ok (sym is_map),
)
