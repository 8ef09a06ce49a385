-- ===== src/ChangeSet/Validate.antt =====
-- apps/local-server/src/change_set.rs: the envelope, the Accepted paths, and each operation by itself.
pub mod Limits
use synapsegit_lp_studio.ChangeSet.Types.{
  ChangeOperationV1, ChangeSetV1, Checked, Crates, Files, change_set_schema, change_set_version,
  create_text, delete, invalid_protocol, limit_exceeded, max_generated_file_bytes,
  max_generated_total_bytes, max_operations, max_summary_bytes, operation_conflict,
  redaction_placeholder, rename, replace_text, reserved_placeholder, stale_base, usize_max,
}
use synapsegit_lp_studio.ChangeSet.Path.{
  extension, folded_path, is_disallowed_control, validate_hash, validate_path,
  validate_text_media_type,
}
use synapsegit_lp_studio.Prelude.{
  Bool, List, [], any, false, length, list_eq, ltb, nat_eq, none, not, ok, pair_eq, reject_if, some,
  ℕ, ◌+◌, ◌==◌, ◌>>=◌, ◌>>◌, ◌||◌, ◌∷◌,
}
use synapsegit_lp_studio.Prelude.Text.{Text, contains, eq_ignore_ascii_case, is_empty, len, trim}
use synapsegit_lp_studio.Prelude.Set.{HashSet}
use synapsegit_lp_studio.Prelude.Map
use synapsegit_lp_studio.Prelude.Set

unfoldable pub invalid_envelope : ChangeSetV1 → Bool
unfolding len trim any is_disallowed_control
invalid_envelope change_set =
    not (change_set.schema == change_set_schema)
    || not (change_set.version == change_set_version)
    || is_empty change_set.base_revision_id
    || ltb 128 (len change_set.base_revision_id)
    || is_empty (trim change_set.summary)
    || ltb max_summary_bytes (len change_set.summary)
    || any is_disallowed_control change_set.summary
    || is_empty change_set.operations

unfoldable pub validate_envelope : ChangeSetV1 → Text → Checked Unit
unfolding invalid_envelope
validate_envelope change_set expected_base_revision_id = do
  reject_if (invalid_envelope change_set) invalid_protocol
  reject_if (not (change_set.base_revision_id == expected_base_revision_id)) stale_base
  reject_if (ltb max_operations (length change_set.operations)) limit_exceeded

-- The loop over the paths, with the set of folded paths that were seen.
unfoldable pub validate_accepted_from : Crates → List Text → HashSet Text → Checked Unit
unfolding validate_path
validate_accepted_from crates [] folded = ok tt
validate_accepted_from crates (path ∷ paths) folded = do
  validate_path crates path
  reject_if (Set.contains (folded_path crates path) folded) operation_conflict
  validate_accepted_from crates paths (Set.insert (folded_path crates path) folded)

unfoldable pub validate_accepted_paths : Crates → Files → Checked Unit
unfolding validate_accepted_from
validate_accepted_paths crates accepted = validate_accepted_from crates (Map.keys accepted) []

-- `generated_total.checked_add(content.len())`, and the limit on the total
unfoldable pub add_generated : ℕ → Text → Checked ℕ
unfolding len
add_generated generated_total content = do
  reject_if (ltb max_generated_file_bytes (len content)) limit_exceeded
  reject_if (ltb usize_max (generated_total + len content)) limit_exceeded
  reject_if (ltb max_generated_total_bytes (generated_total + len content)) limit_exceeded
  ok (generated_total + len content)

unfoldable pub validate_generated : Crates → ℕ → Text → Text → Text → Checked ℕ
unfolding validate_path validate_text_media_type contains add_generated
validate_generated crates generated_total path media_type content = do
  validate_path crates path
  validate_text_media_type path media_type
  reject_if (contains content redaction_placeholder) reserved_placeholder
  add_generated generated_total content

unfoldable pub same_extension : Text → Text → Bool
unfolding extension eq_ignore_ascii_case
same_extension from to = elim (extension from) [
  | none ↦ false
  | some from_extension ↦ elim (extension to) [
    | none ↦ false
    | some to_extension ↦ eq_ignore_ascii_case from_extension to_extension
  ]
]

-- One round of the loop: the new total.
unfoldable pub validate_operation : Crates → ℕ → ChangeOperationV1 → Checked ℕ
unfolding validate_generated validate_path validate_hash same_extension
validate_operation crates total (create_text path media_type content) =
    validate_generated crates total path media_type content
validate_operation crates total (replace_text path expected_sha256 media_type content) = do
  total' ← validate_generated crates total path media_type content
  validate_hash expected_sha256
  ok total'
validate_operation crates total (rename from to expected_sha256) = do
  validate_path crates from
  validate_path crates to
  validate_hash expected_sha256
  reject_if (from == to || not (same_extension from to)) operation_conflict
  ok total
validate_operation crates total (delete path expected_sha256) = do
  validate_path crates path
  validate_hash expected_sha256
  ok total

unfoldable pub validate_operations_from : Crates → ℕ → List ChangeOperationV1 → Checked Unit
unfolding validate_operation
validate_operations_from crates total [] = ok tt
validate_operations_from crates total (operation ∷ operations) = do
  total' ← validate_operation crates total operation
  validate_operations_from crates total' operations

unfoldable pub validate_operations : Crates → List ChangeOperationV1 → Checked Unit
unfolding validate_operations_from
validate_operations crates operations = validate_operations_from crates 0 operations
