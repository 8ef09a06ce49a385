-- ===== src/ChangeSet/Review/Again.antt =====
-- apps/local-server/src/change_set.rs: the files of a review, as the Accepted ones of the next.
use synapsegit_lp_studio.ChangeSet.Types.{
  AppliedChangeSet, ChangeOperationV1, Crates, Files, StaticAnalysis, create_text, delete,
  operation_conflict, rename, replace_text, invalid_protocol,
}
use synapsegit_lp_studio.ChangeSet.Path.{folded_path, validate_path}
use synapsegit_lp_studio.ChangeSet.Validate.{
  validate_accepted_from, validate_accepted_paths, validate_generated, validate_operation,
  validate_operations_from, validate_operations,
}
use synapsegit_lp_studio.ChangeSet.Apply.{all_new, validate_final_case_collisions}
use synapsegit_lp_studio.ChangeSet.Apply.Intended.{effect, intended, mentions}
use synapsegit_lp_studio.ChangeSet.Review.{
  FromStr, parse_and_apply_change_set, or_fail, reviewed, validate_change_set, validate_result,
}
use synapsegit_lp_studio.ChangeSet.Review.Site.{contains-keys}
use synapsegit_lp_studio.ChangeSet.Review.Outcome.{
  validate_change_set-IsValidated, validated_apply_change_set,
}
use synapsegit_lp_studio.Prelude.{
  ==_iff, ==_refl, Bool-cases, List, [], arith, bind-eq-ok, false, inl, inr, list_eq, nat_eq, not,
  ok, ok_injective, pair_eq, passes_of_reject, refl, reject_if, seq-eq-ok, some, subst, sym, true,
  ℕ, ◌==◌, ◌∙◌, ◌∷◌, ◌≡◌,
}
use synapsegit_lp_studio.Prelude.Text.{Bytes, Text}
use synapsegit_lp_studio.Prelude.Set.{HashSet}
use synapsegit_lp_studio.Prelude.Map
use synapsegit_lp_studio.Prelude.Set

-- Every file has a path that passes `validate_path`.
abbrev pub HasValidPaths : Crates → Files → Type 0
HasValidPaths crates files =
    (path : Text) (bytes : Bytes)
    → Map.get path files ≡ some bytes
    → validate_path crates path ≡ ok tt

module _ (crates : Crates) where
  accepted_from_valid :
      (paths : List Text) (folded : HashSet Text) (path : Text)
      → validate_accepted_from crates paths folded ≡ ok tt
      → Set.contains path paths ≡ true
      → validate_path crates path ≡ ok tt
  unfolding validate_accepted_from Set.contains
  accepted_from_valid [] folded path h there = cc
  accepted_from_valid (p ∷ paths) folded path h there =
      let (valid, h₁) = seq-eq-ok (validate_path crates p) _ h in
      let (new, h₂) =
        seq-eq-ok (reject_if (Set.contains (folded_path crates p) folded) operation_conflict) _
          h₁ in
      elim (Bool-cases (p == path)) [
        | inl same ↦ subst (λ u. validate_path crates u ≡ ok tt) ((==_iff p path).0 same) valid
        | inr other ↦
            accepted_from_valid paths (Set.insert (folded_path crates p) folded) path h₂
              (ground arith)
      ]

  validate_accepted_paths-HasValidPaths :
      (accepted : Files)
      → validate_accepted_paths crates accepted ≡ ok tt
      → HasValidPaths crates accepted
  unfolding validate_accepted_paths
  validate_accepted_paths-HasValidPaths accepted h path bytes there =
      accepted_from_valid (Map.keys accepted) [] path h (contains-keys accepted path bytes there)

  validate_generated-path :
      (total total' : ℕ) (path media_type content : Text)
      → validate_generated crates total path media_type content ≡ ok total'
      → validate_path crates path ≡ ok tt
  unfolding validate_generated
  validate_generated-path total total' path media_type content h =
      (seq-eq-ok (validate_path crates path) _ h).0

  -- An operation leaves files at its own paths and at Accepted ones.
  effect-path :
      (total total' : ℕ) (operation : ChangeOperationV1) (accepted : Files) (j : Text)
      (bytes : Bytes)
      → validate_operation crates total operation ≡ ok total'
      → HasValidPaths crates accepted
      → effect operation accepted j ≡ some bytes
      → validate_path crates j ≡ ok tt
  unfolding validate_operation effect
  effect-path total total' (create_text path media_type content) accepted j bytes h valid there =
      elim (Bool-cases (path == j)) [
        | inl same ↦
            subst (λ u. validate_path crates u ≡ ok tt) ((==_iff path j).0 same)
              (validate_generated-path total total' path media_type content h)
        | inr other ↦ valid j bytes (ground arith)
      ]
  effect-path total total' (replace_text path expected media_type content) accepted j bytes h valid
        there =
      let (next, first, rest) =
        bind-eq-ok (validate_generated crates total path media_type content) _ h in
      elim (Bool-cases (path == j)) [
        | inl same ↦
            subst (λ u. validate_path crates u ≡ ok tt) ((==_iff path j).0 same)
              (validate_generated-path total next path media_type content first)
        | inr other ↦ valid j bytes (ground arith)
      ]
  effect-path total total' (rename from to expected) accepted j bytes h valid there =
      let (valid_from, h₁) = seq-eq-ok (validate_path crates from) _ h in
      let (valid_to, h₂) = seq-eq-ok (validate_path crates to) _ h₁ in
      elim (Bool-cases (to == j)) [
        | inl same ↦ subst (λ u. validate_path crates u ≡ ok tt) ((==_iff to j).0 same) valid_to
        | inr other ↦ valid j bytes (ground arith)
      ]
  effect-path total total' (delete path expected) accepted j bytes h valid there =
      valid j bytes (ground arith)

  intended-path :
      (total : ℕ) (operations : List ChangeOperationV1) (accepted : Files) (j : Text)
      (bytes : Bytes)
      → validate_operations_from crates total operations ≡ ok tt
      → HasValidPaths crates accepted
      → intended operations accepted j ≡ some bytes
      → validate_path crates j ≡ ok tt
  unfolding validate_operations_from intended
  intended-path total [] accepted j bytes h valid there = valid j bytes there
  intended-path total (operation ∷ operations) accepted j bytes h valid there =
      let (next, first, rest) = bind-eq-ok (validate_operation crates total operation) _ h in
      elim (Bool-cases (mentions j operation)) [
        | inl named ↦ effect-path total next operation accepted j bytes first valid (ground arith)
        | inr other ↦ intended-path next operations accepted j bytes rest valid (ground arith)
      ]

  -- Valid paths, none of which folds to what was seen or to another, pass the loop.
  valid_accepted_from :
      (paths : List Text) (folded : HashSet Text)
      → ((path : Text) → Set.contains path paths ≡ true → validate_path crates path ≡ ok tt)
      → all_new crates paths folded ≡ true
      → validate_accepted_from crates paths folded ≡ ok tt
  unfolding validate_accepted_from all_new Set.contains
  valid_accepted_from [] folded valid h = refl
  valid_accepted_from (p ∷ paths) folded valid h =
      let here = valid p (ground (arith, ==_refl p)) in
      let new : Set.contains (folded_path crates p) folded ≡ false = ground arith in
      rw (here, new)
        (valid_accepted_from paths (Set.insert (folded_path crates p) folded)
          (λ path there. valid path (ground (arith, there))) (ground arith))

get-contains-keys :
    (files : Files) (path : Text)
    → Set.contains path (Map.keys files) ≡ true
    → (bytes : Bytes) × (Map.get path files ≡ some bytes)
unfolding Map.get Set.contains
get-contains-keys [] path h = cc
get-contains-keys ((j, w) ∷ files) path h = elim (Bool-cases (j == path)) [
  | inl same ↦ (w, ground arith)
  | inr other ↦
      let (bytes, e) = get-contains-keys files path (ground arith) in (bytes, ground arith)
]

validate_result-all_new :
    (crates : Crates) (analysis : StaticAnalysis) (files : Files) (checked : ℕ × List Text)
    → validate_result crates analysis files ≡ ok checked
    → all_new crates (Map.keys files) [] ≡ true
unfolding validate_result validate_final_case_collisions
validate_result-all_new crates analysis files checked h =
    let (new, h₁) =
      seq-eq-ok (reject_if (not (all_new crates (Map.keys files) [])) operation_conflict) _ h in
    ground (arith, passes_of_reject _ _ new)

-- Files that hold what validated operations intend, and that pass the checks of the result.
result_accepted :
    (crates : Crates) (analysis : StaticAnalysis) (operations : List ChangeOperationV1)
    (accepted files : Files) (checked : ℕ × List Text)
    → validate_accepted_paths crates accepted ≡ ok tt
    → validate_operations crates operations ≡ ok tt
    → ((path : Text) → Map.get path files ≡ intended operations accepted path)
    → validate_result crates analysis files ≡ ok checked
    → validate_accepted_paths crates files ≡ ok tt
unfolding validate_accepted_paths validate_operations
result_accepted crates analysis operations accepted files checked paths valid content result =
    valid_accepted_from crates (Map.keys files) []
      (λ path there.
        let (bytes, e) = get-contains-keys files path there in
        intended-path crates 0 operations accepted path bytes valid
          (validate_accepted_paths-HasValidPaths crates accepted paths) (sym (content path) ∙ e))
      (validate_result-all_new crates analysis files checked result)

-- The files of a review may be accepted: they pass the check of the Accepted paths, with which the
-- next review starts.
pub reviewed_accepted :
    (crates : Crates) (analysis : StaticAnalysis) (from_str : FromStr) (raw expected : Text)
    (accepted : Files) (applied : AppliedChangeSet)
    → parse_and_apply_change_set crates analysis from_str raw expected accepted ≡ ok applied
    → validate_accepted_paths crates applied.files ≡ ok tt
unfolding parse_and_apply_change_set reviewed
reviewed_accepted crates analysis from_str raw expected accepted applied h =
    let (change_set, parsed, h₁) = bind-eq-ok (or_fail (from_str raw) invalid_protocol) _ h in
    let (validated, h₂) =
      seq-eq-ok (validate_change_set crates change_set expected accepted) _ h₁ in
    let valid = validate_change_set-IsValidated crates change_set expected accepted validated in
    let (files, content, e) =
      validated_apply_change_set crates analysis change_set expected accepted validated in
    let (checked, result, last) =
      bind-eq-ok (validate_result crates analysis files) _ (sym e ∙ h₂) in
    subst (λ a. validate_accepted_paths crates a.files ≡ ok tt) (ok_injective last)
      (result_accepted crates analysis change_set.operations accepted files checked
        valid.accepted_paths valid.operations content result)
