-- ===== src/ChangeSet/Review/Outcome.antt =====
-- apps/local-server/src/change_set.rs: what `parse_and_apply_change_set` returns.
use synapsegit_lp_studio.ChangeSet.Types.{
  AppliedChangeSet, AppliedFileChange, ChangeSetV1, Crates, Files, StaticAnalysis, StaticCheck,
  blocking_warning, invalid_protocol, stale_base, BlockingWarning, StaticCheckStatus,
  advisory_warning, passed,
}
use synapsegit_lp_studio.ChangeSet.Graph.{validate_operation_graph}
use synapsegit_lp_studio.ChangeSet.Validate.{
  invalid_envelope, validate_accepted_paths, validate_envelope, validate_operations,
}
use synapsegit_lp_studio.ChangeSet.Apply.{validate_preconditions}
use synapsegit_lp_studio.ChangeSet.Apply.Intended.{intended}
use synapsegit_lp_studio.ChangeSet.Apply.Total.{described, validated_applies}
use synapsegit_lp_studio.ChangeSet.Diff.{build_unified_diff}
use synapsegit_lp_studio.ChangeSet.Review.{
  FromStr, all_warnings, apply_change_set, behavior_check, or_fail, ordered_checks,
  parse_and_apply_change_set, references_check, reviewed, validate_change_set, validate_result,
  incomplete_warning, introduced_incomplete, syntax_check,
}
use synapsegit_lp_studio.ChangeSet.Review.Site.{
  IsPublishable, or_fail-some, validate_result-IsPublishable,
}
use synapsegit_lp_studio.ChangeSet.Behavior.{warning_key}
use synapsegit_lp_studio.ChangeSet.Behavior.Warnings.{active_behavior_warnings}
use synapsegit_lp_studio.ChangeSet.Accessibility.{
  accessibility_smoke_check, empty_summary, inspect_files, issue_count,
}
use synapsegit_lp_studio.Prelude.{
  ==_iff, Bool, List, [], any, arith, bind-eq-ok, false, if◌then◌else◌, list_eq, map, nat_eq, not,
  ok, ok_injective, passes_of_reject, refl, reject_if, seq-eq-ok, some, subst, sym, true, ℕ, ◌&&◌,
  ◌++◌, ◌==◌, ◌>>=◌, ◌||◌, ◌∙◌, ◌∷◌, ◌≡◌,
}
use synapsegit_lp_studio.Prelude.Text.{Text, is_empty}
use synapsegit_lp_studio.Prelude.Ordered.{is_empty-collect_by}
use synapsegit_lp_studio.Prelude.Map

-- What an applied ChangeSet is, for the request and the Accepted files it was made from.
pub record IsReviewed (crates : Crates) (analysis : StaticAnalysis) (from_str : FromStr)
    (raw expected : Text) (accepted : Files) (applied : AppliedChangeSet) : Type 0 where
  pub parsed : from_str raw ≡ some applied.change_set
  pub base : applied.change_set.base_revision_id ≡ expected
  pub content :
      (path : Text)
      → Map.get path applied.files ≡ intended applied.change_set.operations accepted path
  pub recorded : applied.changes ≡ map (described crates) applied.change_set.operations
  pub publishable : IsPublishable crates analysis applied.files
  pub diff : applied.unified_diff ≡ build_unified_diff accepted applied.files applied.changes

envelope_base :
    (change_set : ChangeSetV1) (expected : Text)
    → validate_envelope change_set expected ≡ ok tt
    → change_set.base_revision_id ≡ expected
unfolding validate_envelope
envelope_base change_set expected h =
    let (envelope, h₁) = seq-eq-ok (reject_if (invalid_envelope change_set) invalid_protocol) _ h in
    let (base, h₂) =
      seq-eq-ok (reject_if (not (change_set.base_revision_id == expected)) stale_base) _ h₁ in
    ground (arith, passes_of_reject _ _ base, ==_iff change_set.base_revision_id expected)

-- What the validation is made of.
pub record IsValidated (crates : Crates) (change_set : ChangeSetV1) (expected : Text)
    (accepted : Files) : Type 0 where
  pub base : change_set.base_revision_id ≡ expected
  pub accepted_paths : validate_accepted_paths crates accepted ≡ ok tt
  pub operations : validate_operations crates change_set.operations ≡ ok tt
  pub graph : validate_operation_graph crates change_set.operations ≡ ok tt
  pub preconditions : validate_preconditions crates change_set.operations accepted ≡ ok tt

pub validate_change_set-IsValidated :
    (crates : Crates) (change_set : ChangeSetV1) (expected : Text) (accepted : Files)
    → validate_change_set crates change_set expected accepted ≡ ok tt
    → IsValidated crates change_set expected accepted
unfolding validate_change_set
validate_change_set-IsValidated crates change_set expected accepted h =
    let (envelope, h₁) = seq-eq-ok (validate_envelope change_set expected) _ h in
    let (paths, h₂) = seq-eq-ok (validate_accepted_paths crates accepted) _ h₁ in
    let (operations, h₃) = seq-eq-ok (validate_operations crates change_set.operations) _ h₂ in
    let (graph, preconditions) =
      seq-eq-ok (validate_operation_graph crates change_set.operations) _ h₃ in
    record {
      base = envelope_base change_set expected envelope;
      accepted_paths = paths;
      operations = operations;
      graph = graph;
      preconditions = preconditions;
    }

-- Behind the validation, nothing but the checks of the resulting files can refuse a ChangeSet: the
-- operations are all applied, and the files hold what the operations intend.
pub validated_apply_change_set :
    (crates : Crates) (analysis : StaticAnalysis) (change_set : ChangeSetV1) (expected : Text)
    (accepted : Files)
    → validate_change_set crates change_set expected accepted ≡ ok tt
    → (files : Files) × ((path : Text)
        → Map.get path files ≡ intended change_set.operations accepted path)
      × (apply_change_set crates analysis change_set accepted ≡ (
          validate_result crates analysis files >>= λ checked. ok (
            reviewed crates change_set accepted files
              (map (described crates) change_set.operations)
              checked.0
              checked.1)))
unfolding apply_change_set
validated_apply_change_set crates analysis change_set expected accepted h =
    let valid = validate_change_set-IsValidated crates change_set expected accepted h in
    let (files, applied, content) =
      validated_applies crates change_set.operations accepted valid.graph valid.preconditions in
    (files, content, rw applied refl)

-- A ChangeSet that is returned for review is the one that the request spells, on the revision that
-- was expected. Its files are the Accepted ones with the effect of its operations and nothing else;
-- the recorded changes are the announced ones, with the hashes of the contents; and the files can be
-- published: there is an index.html, no path is reserved, no two paths fold to one, the parsers take
-- the site, and every reference that the scan finds leads to a file of the site or out of it.
pub parse_and_apply_change_set-IsReviewed :
    (crates : Crates) (analysis : StaticAnalysis) (from_str : FromStr) (raw expected : Text)
    (accepted : Files) (applied : AppliedChangeSet)
    → parse_and_apply_change_set crates analysis from_str raw expected accepted ≡ ok applied
    → IsReviewed crates analysis from_str raw expected accepted applied
unfolding parse_and_apply_change_set reviewed
parse_and_apply_change_set-IsReviewed crates analysis from_str raw expected accepted applied h =
    let (change_set, parsed, h₁) = bind-eq-ok (or_fail (from_str raw) invalid_protocol) _ h in
    let (validated, h₂) =
      seq-eq-ok (validate_change_set crates change_set expected accepted) _ h₁ in
    let valid = validate_change_set-IsValidated crates change_set expected accepted validated in
    let (files, content, e) =
      validated_apply_change_set crates analysis change_set expected accepted validated in
    let (checked, result, last) =
      bind-eq-ok (validate_result crates analysis files) _ (sym e ∙ h₂) in
    subst (IsReviewed crates analysis from_str raw expected accepted) (ok_injective last) (record {
      parsed = or_fail-some (from_str raw) _ change_set parsed;
      base = valid.base;
      content = content;
      recorded = refl;
      publishable = validate_result-IsPublishable crates analysis files checked result;
      diff = refl;
    })

abbrev pub is_blocking_status : StaticCheckStatus → Bool
is_blocking_status passed = false
is_blocking_status advisory_warning = false
is_blocking_status blocking_warning = true

abbrev pub is_blocking : StaticCheck → Bool
is_blocking check = is_blocking_status check.status

advises : (b : Bool) → is_blocking_status (if b then passed else advisory_warning) ≡ false
advises true = refl
advises false = refl

blocks : (b : Bool) → is_blocking_status (if b then passed else blocking_warning) ≡ not b
blocks true = refl
blocks false = refl

is_empty-append_map :
    (warnings : List BlockingWarning) (paths : List Text)
    → is_empty (warnings ++ map incomplete_warning paths) ≡ (is_empty warnings && is_empty paths)
is_empty-append_map [] [] = refl
is_empty-append_map [] (path ∷ paths) = refl
is_empty-append_map (w ∷ warnings) paths = refl

-- A path of an incomplete analysis is among the warnings.
warnings_of_introduced :
    (crates : Crates) (accepted files : Files) (introduced : List Text)
    → (not (is_empty introduced) || not (is_empty (all_warnings crates accepted files introduced)))
      ≡ not (is_empty (all_warnings crates accepted files introduced))
unfolding all_warnings
warnings_of_introduced crates accepted files introduced = ground (
  arith,
  is_empty-collect_by warning_key
      (active_behavior_warnings crates accepted files ++ map incomplete_warning introduced) [],
  is_empty-append_map (active_behavior_warnings crates accepted files) introduced,
)

-- The list of the checks blocks exactly when there is a warning to confirm.
pub checks-block :
    (crates : Crates) (change_set : ChangeSetV1) (accepted files : Files)
    (changes : List AppliedFileChange) (count : ℕ) (sources : List Text)
    → let applied = reviewed crates change_set accepted files changes count sources in
      any is_blocking applied.checks ≡ not (is_empty applied.blocking_warnings)
unfolding reviewed ordered_checks any references_check behavior_check syntax_check
    accessibility_smoke_check
checks-block crates change_set accepted files changes count sources =
    let introduced = introduced_incomplete accepted files sources in
    let warnings = all_warnings crates accepted files introduced in
    rw
      (
        advises (count == 0),
        blocks (is_empty introduced),
        blocks (is_empty warnings),
        advises (issue_count (inspect_files crates empty_summary files) == 0),
      )
      (ground (arith, warnings_of_introduced crates accepted files introduced))
