-- ===== src/ChangeSet/Apply.antt =====
-- apps/local-server/src/change_set.rs: the preconditions on the Accepted files, the application to a
-- copy of them, and the checks on what results.
pub mod Total
pub mod Intended
use synapsegit_lp_studio.ChangeSet.Types.{
  AppliedFileChange, ChangeOperationV1, Checked, Crates, Files, create_text, created, delete,
  deleted, modified, operation_conflict, precondition_failed, rename, renamed, replace_text,
  reserved,
}
use synapsegit_lp_studio.ChangeSet.Path.{folded_path, reserved_path, sha256}
use synapsegit_lp_studio.Prelude.{
  Bool, List, [], any, err, list_eq, nat_eq, none, not, ok, pair_eq, reject_if, some, true, ◌&&◌,
  ◌==◌, ◌>>=◌, ◌>>◌, ◌∷◌,
}
use synapsegit_lp_studio.Prelude.Text.{Text, as_bytes}
use synapsegit_lp_studio.Prelude.Set.{HashSet}
use synapsegit_lp_studio.Prelude.Map
use synapsegit_lp_studio.Prelude.Set

-- `require_file_hash`
unfoldable pub require_file_hash : Crates → Files → Text → Text → Checked Unit
require_file_hash crates files path expected_sha256 = elim (Map.get path files) [
  | none ↦ err precondition_failed
  | some bytes ↦ reject_if (not (sha256 crates bytes == expected_sha256)) precondition_failed
]

-- `accepted_folded.contains_key(&folded_path(path))`
unfoldable pub folded_exists : Crates → Files → Text → Bool
unfolding any
folded_exists crates accepted path =
    any (λ other. folded_path crates other == folded_path crates path) (Map.keys accepted)

unfoldable pub validate_precondition : Crates → Files → ChangeOperationV1 → Checked Unit
unfolding require_file_hash folded_exists
validate_precondition crates accepted (create_text path media_type content) =
    reject_if (folded_exists crates accepted path) precondition_failed
validate_precondition crates accepted (replace_text path expected_sha256 media_type content) =
    require_file_hash crates accepted path expected_sha256
validate_precondition crates accepted (delete path expected_sha256) =
    require_file_hash crates accepted path expected_sha256
validate_precondition crates accepted (rename from to expected_sha256) = do
  require_file_hash crates accepted from expected_sha256
  reject_if (folded_exists crates accepted to) precondition_failed

unfoldable pub validate_preconditions : Crates → List ChangeOperationV1 → Files → Checked Unit
unfolding validate_precondition
validate_preconditions crates [] accepted = ok tt
validate_preconditions crates (operation ∷ operations) accepted = do
  validate_precondition crates accepted operation
  validate_preconditions crates operations accepted

-- One round of the loop of `apply_to_clone`: the new files, and the change to record.
unfoldable pub apply_operation :
    Crates → ChangeOperationV1 → Files → Checked (Files × AppliedFileChange)
apply_operation crates (create_text path media_type content) files = elim (Map.get path files) [
  | some before ↦ err precondition_failed
  | none ↦ ok (
    Map.insert path (as_bytes content) files,
    record {
      path = path;
      kind = created;
      from_path = none;
      before_sha256 = none;
      after_sha256 = some (sha256 crates (as_bytes content));
    },
  )
]
apply_operation crates (replace_text path expected_sha256 media_type content) files =
    elim (Map.get path files) [
      | none ↦ err precondition_failed
      | some before ↦ ok (
        Map.insert path (as_bytes content) files,
        record {
          path = path;
          kind = modified;
          from_path = none;
          before_sha256 = some (sha256 crates before);
          after_sha256 = some (sha256 crates (as_bytes content));
        },
      )
    ]
apply_operation crates (rename from to expected_sha256) files = elim (Map.get from files) [
  | none ↦ err precondition_failed
  | some bytes ↦ elim (Map.get to (Map.remove from files)) [
    | some before ↦ err precondition_failed
    | none ↦ ok (
      Map.insert to bytes (Map.remove from files),
      record {
        path = to;
        kind = renamed;
        from_path = some from;
        before_sha256 = some (sha256 crates bytes);
        after_sha256 = some (sha256 crates bytes);
      },
    )
  ]
]
apply_operation crates (delete path expected_sha256) files = elim (Map.get path files) [
  | none ↦ err precondition_failed
  | some before ↦ ok (
    Map.remove path files,
    record {
      path = path;
      kind = deleted;
      from_path = none;
      before_sha256 = some (sha256 crates before);
      after_sha256 = none;
    },
  )
]

unfoldable pub apply_to_clone :
    Crates → List ChangeOperationV1 → Files → Checked (Files × List AppliedFileChange)
unfolding apply_operation
apply_to_clone crates [] files = ok (files, [])
apply_to_clone crates (operation ∷ operations) files = do
  applied ← apply_operation crates operation files
  rest ← apply_to_clone crates operations applied.0
  ok (rest.0, applied.1 ∷ rest.1)

-- `files.keys().all(|path| folded.insert(folded_path(path)))`
unfoldable pub all_new : Crates → List Text → HashSet Text → Bool
all_new crates [] folded = true
all_new crates (path ∷ paths) folded =
    not (Set.contains (folded_path crates path) folded)
    && all_new crates paths (Set.insert (folded_path crates path) folded)

unfoldable pub validate_final_case_collisions : Crates → Files → Checked Unit
unfolding all_new
validate_final_case_collisions crates files =
    reject_if (not (all_new crates (Map.keys files) [])) operation_conflict

unfoldable pub validate_export_deny_list : Crates → Files → Checked Unit
unfolding any reserved_path
validate_export_deny_list crates files =
    reject_if (any (reserved_path crates) (Map.keys files)) reserved
