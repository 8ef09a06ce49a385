-- ===== src/StaticExport/Generate/Reviewed.antt =====
-- apps/local-server/src/static_export.rs and change_set.rs: the paths of a reviewed site in an export.
use synapsegit_lp_studio.Prelude.Map
use synapsegit_lp_studio.Prelude.Set
use synapsegit_lp_studio.StaticExport.Generate.{
  reserved_export_path, ExportCrates, canonical_file_entries,
}
use synapsegit_lp_studio.StaticExport.Generate.Manifest.{
  IsExportable, all_distinct, entry_of, file_entries_from_accepts,
}
use synapsegit_lp_studio.Storage.Paths.{is_unsafe_path, is_unsafe_segment, validate_canonical_path}
use synapsegit_lp_studio.ChangeSet.Types.{
  Crates, max_path_depth, unsafe_path, AppliedChangeSet, Files, StaticAnalysis, operation_conflict,
}
use synapsegit_lp_studio.ChangeSet.Path.{
  reserved_path, unsafe_segment, unsafe_text, validate_path, folded_path,
}
use synapsegit_lp_studio.ChangeSet.Path.Below.{split_at, split_cons}
use synapsegit_lp_studio.ChangeSet.Validate.{validate_accepted_from, validate_accepted_paths}
use synapsegit_lp_studio.ChangeSet.Review.{FromStr, parse_and_apply_change_set}
use synapsegit_lp_studio.ChangeSet.Review.Again.{reviewed_accepted}
use synapsegit_lp_studio.Prelude.{
  All, Bool, Bool-cases, List, [], any, arith, false, inl, inr, length, list_eq, ltb, map, nat_eq,
  ok, pair_eq, passes_of_reject, refl, reject_if, seq-eq-ok, subst, true, ℕ, ◌==◌, ◌||◌, ◌∙◌, ◌∷◌,
  ◌≡◌,
}
use synapsegit_lp_studio.Prelude.Text.{Text, codes, contains_char, is_control, split}
use synapsegit_lp_studio.Prelude.Set.{HashSet}

split-any :
    (p : ℕ → Bool) (sep : ℕ) (t : Text) → any p t ≡ false → All (λ s. any p s ≡ false) (split sep t)
unfolding any
split-any p sep [] h = unfold split in (refl, tt)
split-any p sep (c ∷ t) h =
    let (s, r, e) = split_cons sep t in
    let parts : All (λ s. any p s ≡ false) (s ∷ r) =
      subst (All (λ s. any p s ≡ false)) e (split-any p sep t (ground arith)) in
    elim (Bool-cases (c == sep)) [
      | inl cut ↦ rw (split_at sep c t s r e, cut) (refl, parts)
      | inr on ↦ rw (split_at sep c t s r e, on) (ground arith, parts.1)
    ]

no_control-no_zero : (t : Text) → any is_control t ≡ false → contains_char t 0 ≡ false
unfolding any contains_char is_control
no_control-no_zero [] h = refl
no_control-no_zero (c ∷ t) h = ground (arith, no_control-no_zero t)

any-or :
    (p q : ℕ → Bool) (s : Text)
    → any p s ≡ false
    → any q s ≡ false
    → any (λ c. p c || q c) s ≡ false
unfolding any
any-or p q [] h k = refl
any-or p q (c ∷ s) h k = ground (arith, any-or p q s)

segment_passes :
    (s : Text) → any is_control s ≡ false → unsafe_segment s ≡ false → is_unsafe_segment s ≡ false
unfolding unsafe_segment is_unsafe_segment
segment_passes s clean h =
    ground (arith, any-or is_control (λ c. contains_char (codes "<>:\"|?*") c) s clean)

segments_pass :
    (parts : List Text)
    → All (λ s. any is_control s ≡ false) parts
    → any unsafe_segment parts ≡ false
    → any is_unsafe_segment parts ≡ false
unfolding any
segments_pass [] clean h = refl
segments_pass (s ∷ parts) clean h =
    ground (arith, segment_passes s clean.0, segments_pass parts clean.1)

text_passes :
    (crates : Crates) (path : Text)
    → unsafe_text crates path ≡ false
    → (any is_control path ≡ false) × (is_unsafe_path crates path ≡ false)
unfolding unsafe_text is_unsafe_path
text_passes crates path h =
    let clean : any is_control path ≡ false = ground arith in
    (clean, ground (arith, no_control-no_zero path clean))

reserved_export_path_lem :
    (crates : Crates) (path : Text) → reserved_export_path crates path ≡ reserved_path crates path
unfolding reserved_export_path reserved_path
reserved_export_path_lem crates path = ground arith

-- A path that the review accepts is one that the export takes.
pub validate_path-IsExportable :
    (crates : Crates) (path : Text) → validate_path crates path ≡ ok tt → IsExportable crates path
unfolding validate_path validate_canonical_path
validate_path-IsExportable crates path h =
    let parts = split b'/' path in
    let (text, h₁) = seq-eq-ok (reject_if (unsafe_text crates path) unsafe_path) _ h in
    let (deep, h₂) = seq-eq-ok (reject_if (ltb max_path_depth (length parts)) unsafe_path) _ h₁ in
    let (segments, h₃) = seq-eq-ok (reject_if (any unsafe_segment parts) unsafe_path) _ h₂ in
    let free = passes_of_reject (reserved_path crates path) _ h₃ in
    let (clean, safe) = text_passes crates path (passes_of_reject _ _ text) in
    let all_safe =
      segments_pass parts (split-any is_control b'/' path clean) (passes_of_reject _ _ segments) in
    let shallow = passes_of_reject (ltb max_path_depth (length parts)) _ deep in
    (rw (safe, shallow, all_safe) refl, reserved_export_path_lem crates path ∙ free)

accepted_paths-IsExportable :
    (crates : Crates) (files : Files) (folded : HashSet Text)
    → validate_accepted_from crates (Map.keys files) folded ≡ ok tt
    → All (λ file. IsExportable crates file.0) files × (all_distinct crates files folded ≡ true)
unfolding validate_accepted_from
accepted_paths-IsExportable crates [] folded h = (tt, refl)
accepted_paths-IsExportable crates ((path, bytes) ∷ files) folded h =
    let (valid, h₁) = seq-eq-ok (validate_path crates path) _ h in
    let (new, h₂) =
      seq-eq-ok (reject_if (Set.contains (folded_path crates path) folded) operation_conflict) _
        h₁ in
    let (exportable, distinct) =
      accepted_paths-IsExportable crates files (Set.insert (folded_path crates path) folded) h₂ in
    (
      (validate_path-IsExportable crates path valid, exportable),
      ground (arith, passes_of_reject _ _ new),
    )

-- The files that a review returns, once they are accepted, always have a manifest for the export: it
-- has an entry for each of them, in order. So no accepted proposal makes the export fail on a path.
pub reviewed-canonical_file_entries :
    (crates : Crates) (others : ExportCrates) (analysis : StaticAnalysis) (from_str : FromStr)
    (raw expected : Text) (accepted : Files) (applied : AppliedChangeSet)
    → parse_and_apply_change_set crates analysis from_str raw expected accepted ≡ ok applied
    → canonical_file_entries crates others applied.files
      ≡ ok (map (entry_of crates others) applied.files)
unfolding validate_accepted_paths canonical_file_entries
reviewed-canonical_file_entries crates others analysis from_str raw expected accepted applied h =
    let paths = reviewed_accepted crates analysis from_str raw expected accepted applied h in
    let (exportable, distinct) = accepted_paths-IsExportable crates applied.files [] paths in
    file_entries_from_accepts crates others applied.files [] exportable distinct
