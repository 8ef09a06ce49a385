-- ===== src/ChangeSet/Review.antt =====
-- apps/local-server/src/change_set.rs: `parse_and_apply_change_set`, with the checks that it shows.
pub mod Site
pub mod Outcome
pub mod Again
use synapsegit_lp_studio.ChangeSet.Types.{
  AppliedChangeSet, AppliedFileChange, BlockingWarning, ChangeSetError, ChangeSetV1, Checked,
  Crates, Files, StaticAnalysis, StaticCheck, advisory_warning, blocking_warning,
  invalid_local_reference, invalid_protocol, invalid_syntax, missing_entry_point, passed, reserved,
}
use synapsegit_lp_studio.ChangeSet.Graph.{validate_operation_graph}
use synapsegit_lp_studio.ChangeSet.Validate.{
  validate_accepted_paths, validate_envelope, validate_operations,
}
use synapsegit_lp_studio.ChangeSet.Apply.{
  apply_to_clone, validate_export_deny_list, validate_final_case_collisions, validate_preconditions,
}
use synapsegit_lp_studio.ChangeSet.Diff.{build_unified_diff}
use synapsegit_lp_studio.ChangeSet.Reference.{resolve_local_reference}
use synapsegit_lp_studio.ChangeSet.Behavior.{warning_key}
use synapsegit_lp_studio.ChangeSet.Behavior.Warnings.{active_behavior_warnings}
use synapsegit_lp_studio.ChangeSet.Accessibility.{accessibility_smoke_check}
use synapsegit_lp_studio.StaticExport.Scan.{scan_references}
use synapsegit_lp_studio.Prelude.{
  Bool, List, Option, [], any, err, false, if◌then◌else◌, keep, length, list_eq, map, map_err,
  nat_eq, none, not, ok, reject_if, some, true, ℕ, ◌&&◌, ◌++◌, ◌==◌, ◌>>=◌, ◌>>◌, ◌||◌, ◌∷◌,
}
use synapsegit_lp_studio.Prelude.Text.{Bytes, Text, codes, contains, decimal, is_empty}
use synapsegit_lp_studio.Prelude.Ordered.{collect_by}
use synapsegit_lp_studio.Prelude.Map.{BTreeSet}
use synapsegit_lp_studio.Prelude.Map

-- `serde_json::from_str::<ChangeSetV1>`, which refuses unknown fields and missing ones.
abbrev pub FromStr : Type 0
FromStr = Text → Option ChangeSetV1

abbrev pub or_fail : {A : Type 0} → Option A → ChangeSetError → Checked A
or_fail none e = err e
or_fail (some a) e = ok a

-- A reference that is resolved leads to a file, or to a directory with an index.html.
abbrev pub require_target : Files → Option Text → Checked Unit
require_target files none = ok tt
require_target files (some path) =
    reject_if
      (not (Map.contains_key path files)
        && not (Map.contains_key (path ++ codes "/index.html") files))
      invalid_local_reference

unfoldable pub validate_reference : Crates → Files → Text → Text → Checked Unit
validate_reference crates files source_path reference = do
  resolved ← resolve_local_reference crates source_path reference
  require_target files resolved

unfoldable pub validate_references : Crates → Files → Text → List Text → Checked Unit
unfolding validate_reference
validate_references crates files source_path [] = ok tt
validate_references crates files source_path (reference ∷ references) = do
  validate_reference crates files source_path reference
  validate_references crates files source_path references

abbrev pub add_incomplete : Bool → Text → BTreeSet → BTreeSet
add_incomplete analysis_incomplete path sources =
    if analysis_incomplete then Map.insert path tt sources else sources

unfoldable pub validate_local_references_from : Crates → Files → Files → BTreeSet → Checked BTreeSet
unfolding validate_references
validate_local_references_from crates files [] incomplete_sources = ok incomplete_sources
validate_local_references_from crates files ((source_path, bytes) ∷ rest) incomplete_sources = do
  scan ← map_err (λ e. invalid_local_reference) (scan_references source_path bytes)
  validate_references crates files source_path scan.references
  validate_local_references_from crates files rest
      (add_incomplete scan.analysis_incomplete source_path incomplete_sources)

unfoldable pub validate_local_references : Crates → Files → Checked BTreeSet
unfolding validate_local_references_from
validate_local_references crates files = validate_local_references_from crates files files []

-- `validate_static_syntax`
abbrev pub validate_static_syntax : StaticAnalysis → Files → Checked ℕ
validate_static_syntax analysis files =
    or_fail (analysis.validate_resulting_site files) invalid_syntax

abbrev pub same_file : Option Bytes → Option Bytes → Bool
same_file none none = true
same_file (some a) (some b) = a == b
same_file _ _ = false

-- The sources whose analysis is incomplete by this proposal: the changed ones, or all of them if a
-- path is gone.
unfoldable pub introduced_incomplete : Files → Files → List Text → List Text
unfolding any keep
introduced_incomplete accepted files incomplete_sources =
    let removes_existing_path =
      any (λ path. not (Map.contains_key path files)) (Map.keys accepted) in
    keep
      (λ path.
        removes_existing_path || not (same_file (Map.get path accepted) (Map.get path files)))
      incomplete_sources

unfoldable pub incomplete_warning : Text → BlockingWarning
incomplete_warning path = record {
  code = codes "static_reference_analysis_incomplete";
  path = path;
  destination = codes "bounded-static-reference-analysis";
  message =
      codes
        "The proposal introduces reference syntax that the bounded static analyzer cannot exhaustively classify.";
}

abbrev pub passed_check : Text → Text → StaticCheck
passed_check id message = record { id = id; status = passed; message = message }

unfoldable pub syntax_check : ℕ → StaticCheck
unfolding decimal
syntax_check count = record {
  id = codes "static-syntax";
  status = if count == 0 then passed else advisory_warning;
  message =
      if count == 0
      then codes
          "The resulting site passed strict JSON, CSS, JavaScript, XML, and SVG parser checks; HTML5 parsing required no recovery."
      else codes "HTML5 parsing reported a bounded "
        ++ (decimal count
            ++ codes
                " recoverable parse error(s); strict JSON, CSS, JavaScript, XML, and SVG parser checks still passed.");
}

unfoldable pub references_check : List Text → StaticCheck
unfolding decimal
references_check introduced = record {
  id = codes "local-references";
  status = if is_empty introduced then passed else blocking_warning;
  message =
      if is_empty introduced
      then codes
          "Bounded static local references introduced or changed by this proposal resolve inside the site."
      else decimal (length introduced)
        ++ codes
            " changed file(s) contain reference syntax that the bounded analyzer cannot exhaustively classify.";
}

unfoldable pub behavior_check : List BlockingWarning → StaticCheck
unfolding decimal
behavior_check warnings = record {
  id = codes "active-behavior";
  status = if is_empty warnings then passed else blocking_warning;
  message =
      if is_empty warnings
      then codes "No new active or externally connected behavior was detected."
      else decimal (length warnings)
        ++ codes " blocking review item(s) require explicit Human review.";
}

unfoldable pub ordered_checks :
    Crates → Files → ℕ → List BlockingWarning → List Text → List StaticCheck
unfolding syntax_check references_check behavior_check accessibility_smoke_check
ordered_checks crates files html_recovery_warning_count warnings introduced =
    passed_check (codes "protocol-schema") (codes "ChangeSet v1 schema is strict and supported.")
    ∷ passed_check (codes "base-revision")
        (codes "The ChangeSet is bound to the current Accepted revision.")
    ∷ passed_check (codes "operation-graph")
        (codes "Operation paths and dependencies do not conflict.")
    ∷ passed_check (codes "file-preconditions")
        (codes "Every required file SHA-256 precondition matches.")
    ∷ passed_check (codes "isolated-apply")
        (codes "All operations were applied to an isolated in-memory clone.")
    ∷ syntax_check html_recovery_warning_count
    ∷ passed_check (codes "entry-point") (codes "The resulting site retains index.html.")
    ∷ references_check introduced
    ∷ passed_check (codes "export-deny-list")
        (codes "The resulting manifest contains no reserved Studio path.")
    ∷ accessibility_smoke_check crates files
    ∷ behavior_check warnings
    ∷ []

-- What `parse_and_apply_change_set` does before it applies the operations.
unfoldable pub validate_change_set : Crates → ChangeSetV1 → Text → Files → Checked Unit
validate_change_set crates change_set expected_base_revision_id accepted = do
  validate_envelope change_set expected_base_revision_id
  validate_accepted_paths crates accepted
  validate_operations crates change_set.operations
  validate_operation_graph crates change_set.operations
  validate_preconditions crates change_set.operations accepted

-- The checks of the resulting files: the recovered errors, and the sources of an incomplete analysis.
unfoldable pub validate_result : Crates → StaticAnalysis → Files → Checked (ℕ × List Text)
validate_result crates analysis files = do
  validate_final_case_collisions crates files
  html_recovery_warning_count ← validate_static_syntax analysis files
  reject_if (not (Map.contains_key (codes "index.html") files)) missing_entry_point
  incomplete_reference_sources ← validate_local_references crates files
  validate_export_deny_list crates files
  ok (html_recovery_warning_count, Map.keys incomplete_reference_sources)

unfoldable pub all_warnings : Crates → Files → Files → List Text → List BlockingWarning
unfolding active_behavior_warnings incomplete_warning
all_warnings crates accepted files introduced =
    collect_by warning_key
      (active_behavior_warnings crates accepted files ++ map incomplete_warning introduced) []

-- What is shown of the applied operations.
unfoldable pub reviewed :
    Crates → ChangeSetV1 → Files → Files → List AppliedFileChange → ℕ → List Text → AppliedChangeSet
unfolding introduced_incomplete
reviewed crates change_set accepted files changes count incomplete_sources =
    let introduced = introduced_incomplete accepted files incomplete_sources in
    let warnings = all_warnings crates accepted files introduced in
    record {
      change_set = change_set;
      files = files;
      changes = changes;
      unified_diff = build_unified_diff accepted files changes;
      checks = ordered_checks crates files count warnings introduced;
      blocking_warnings = warnings;
    }

unfoldable pub apply_change_set :
    Crates → StaticAnalysis → ChangeSetV1 → Files → Checked AppliedChangeSet
apply_change_set crates analysis change_set accepted = do
  applied ← apply_to_clone crates change_set.operations accepted
  checked ← validate_result crates analysis applied.0
  ok (reviewed crates change_set accepted applied.0 applied.1 checked.0 checked.1)

unfoldable pub parse_and_apply_change_set :
    Crates → StaticAnalysis → FromStr → Text → Text → Files → Checked AppliedChangeSet
parse_and_apply_change_set crates analysis from_str raw expected_base_revision_id accepted = do
  change_set ← or_fail (from_str raw) invalid_protocol
  validate_change_set crates change_set expected_base_revision_id accepted
  apply_change_set crates analysis change_set accepted
