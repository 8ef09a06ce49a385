-- ===== src/ChangeSet/Examples.antt =====
-- apps/local-server/src/change_set.rs: the properties at the runs of the tests.
use synapsegit_lp_studio.ChangeSet.Types.{
  AppliedFileChange, BlockingWarning, Files, max_generated_total_bytes, max_unified_diff_bytes,
  new_change_set,
}
use synapsegit_lp_studio.ChangeSet.Path.Below.{IsBelowRoot, validate_path-IsBelowRoot}
use synapsegit_lp_studio.ChangeSet.Graph.{contains_rename_cycle}
use synapsegit_lp_studio.ChangeSet.Graph.Claims.{Separate, validate_operation_graph-Separate}
use synapsegit_lp_studio.ChangeSet.Graph.Cycles.{IsCyclic, contains_rename_cycle_lem}
use synapsegit_lp_studio.ChangeSet.Validate.Limits.{IsSound, generated_sum, validate_operations_lem}
use synapsegit_lp_studio.ChangeSet.Apply.{apply_to_clone}
use synapsegit_lp_studio.ChangeSet.Apply.Intended.{intended}
use synapsegit_lp_studio.ChangeSet.Apply.Total.{described, validated_applies}
use synapsegit_lp_studio.ChangeSet.Diff.{build_unified_diff, diff_header, lines}
use synapsegit_lp_studio.ChangeSet.Diff.Bounds.{build_unified_diff-le}
use synapsegit_lp_studio.ChangeSet.Diff.Whole.{
  build_unified_diff-whole, whole_diff, whole_change, whole_content, whole_file, whole_lines,
}
use synapsegit_lp_studio.ChangeSet.Reference.Inside.{resolve_local_reference-IsBelowRoot}
use synapsegit_lp_studio.ChangeSet.Behavior.{BehaviorFeature, warning_key}
use synapsegit_lp_studio.ChangeSet.Behavior.Warnings.{active_behavior_warnings, warning_of}
use synapsegit_lp_studio.ChangeSet.Behavior.New.{HasFeature, active_behavior_warnings_iff}
use synapsegit_lp_studio.ChangeSet.Review.{apply_change_set, reviewed, validate_result}
use synapsegit_lp_studio.ChangeSet.Review.Outcome.{
  IsReviewed, checks-block, is_blocking, parse_and_apply_change_set-IsReviewed,
  validated_apply_change_set,
}
use synapsegit_lp_studio.ChangeSet.Tests.{
  change_set, change_set_passes, graph_passes, operations, operations_pass, path_passes,
  preconditions_pass, read, resolves, result, review, review_returned, site, test_analysis,
  test_crates,
}
use synapsegit_lp_studio.ChangeSet.Path.{sha256}
use synapsegit_lp_studio.ChangeSet.Markup.{parse_attributes, scan_markup_tags, scan_round}
use synapsegit_lp_studio.ChangeSet.Markup.Ends.{scan_markup_tags_lem}
use synapsegit_lp_studio.ChangeSet.Validate.{validate_accepted_paths}
use synapsegit_lp_studio.ChangeSet.Review.Again.{reviewed_accepted}
use synapsegit_lp_studio.ChangeSet.Markup.Written.{
  Written, parse_attributes-written, written, IsWellWritten,
}
use synapsegit_lp_studio.Prelude.{
  All, Bool, List, [], any, arith, inl, inr, length, list_beq, list_eq, ltb, map, nat_eq, none, not,
  ok, refl, some, true, ◌++◌, ◌<◌, ◌>>=◌, ◌↔◌, ◌∷◌, ◌≡◌, ◌≢◌, ◌≤◌,
}
use synapsegit_lp_studio.Prelude.Text.{
  Text, as_bytes, codes, is_empty, is_whitespace, len, to_ascii_lowercase,
}
use synapsegit_lp_studio.Prelude.Utf8.{from_utf8}
use synapsegit_lp_studio.Prelude.Ordered.{contains_by}
use synapsegit_lp_studio.Prelude.Map.{BTreeMap}
use synapsegit_lp_studio.Prelude.Map

parse_and_apply_change_set-IsReviewed_example :
    IsReviewed test_crates test_analysis read (codes "{}") (codes "rev-1") site review
parse_and_apply_change_set-IsReviewed_example =
    parse_and_apply_change_set-IsReviewed test_crates test_analysis read (codes "{}")
      (codes "rev-1") site review review_returned

validated_apply_change_set_example :
    (files : Files) × ((path : Text) → Map.get path files ≡ intended operations site path)
    × (apply_change_set test_crates test_analysis change_set site ≡ (
        validate_result test_crates test_analysis files >>= λ checked. ok (
          reviewed test_crates change_set site files
            (map (described test_crates) operations)
            checked.0
            checked.1)))
unfolding new_change_set
validated_apply_change_set_example =
    validated_apply_change_set test_crates test_analysis change_set (codes "rev-1") site
      change_set_passes

validated_applies_example :
    (files : Files) × (apply_to_clone test_crates operations site
      ≡ ok (files, map (described test_crates) operations))
    × ((j : Text) → Map.get j files ≡ intended operations site j)
validated_applies_example =
    validated_applies test_crates operations site graph_passes preconditions_pass

validate_operations_lem_example :
    (generated_sum operations ≤ max_generated_total_bytes) × All IsSound operations
validate_operations_lem_example = validate_operations_lem test_crates operations operations_pass

validate_operation_graph-Separate_example : Separate test_crates operations
validate_operation_graph-Separate_example =
    validate_operation_graph-Separate test_crates operations graph_passes

-- two renames that swap their files
abbrev swap : BTreeMap Text
swap = (codes "a", codes "b") ∷ (codes "b", codes "a") ∷ []

contains_rename_cycle_lem_example :
    (b : Bool) × (contains_rename_cycle swap ≡ some b) × ((b ≡ true) ↔ IsCyclic swap)
contains_rename_cycle_lem_example = contains_rename_cycle_lem swap

validate_path-IsBelowRoot_example : IsBelowRoot (codes "css/new.css")
validate_path-IsBelowRoot_example =
    validate_path-IsBelowRoot test_crates (codes "css/new.css") path_passes

resolve_local_reference-IsBelowRoot_example : IsBelowRoot (codes "css/new.css")
resolve_local_reference-IsBelowRoot_example =
    resolve_local_reference-IsBelowRoot test_crates (codes "blog/a.html")
      (codes " ../css/new%2Ecss?v=1 ") (codes "css/new.css") resolves

abbrev changes : List AppliedFileChange
changes = map (described test_crates) operations

build_unified_diff-le_example :
    len (build_unified_diff site result changes) ≤ max_unified_diff_bytes
build_unified_diff-le_example = build_unified_diff-le site result changes

whole_diff_small : ltb (len (whole_diff site result changes)) max_unified_diff_bytes ≡ true
unfolding len whole_diff whole_change diff_header sha256 whole_file Map.get list_beq whole_content
    from_utf8 whole_lines lines as_bytes
whole_diff_small = refl

whole_diff_lt : len (whole_diff site result changes) < max_unified_diff_bytes
whole_diff_lt = ground (arith, whole_diff_small)

build_unified_diff-whole_example :
    build_unified_diff site result changes ≡ whole_diff site result changes
build_unified_diff-whole_example = build_unified_diff-whole site result changes whole_diff_lt

abbrev with_script : Files
with_script = (codes "index.html", codes "<script>go()</script>") ∷ []

abbrev script_warning : BlockingWarning
script_warning = record {
  code = codes "new_script";
  path = codes "index.html";
  destination = codes "inline-script";
  message = codes "The proposal introduces executable script content.";
}

active_behavior_warnings_iff_example :
    (contains_by warning_key script_warning (active_behavior_warnings test_crates site with_script)
      ≡ true)
    ↔ ((feature : BehaviorFeature) × HasFeature test_crates with_script feature
        × (¬ HasFeature test_crates site feature)
        × (feature.code ≢ codes "new_external_origin")
        × (warning_of feature ≡ script_warning))
active_behavior_warnings_iff_example =
    active_behavior_warnings_iff test_crates site with_script script_warning

checks-block_example :
    any is_blocking (reviewed test_crates change_set site result changes 0 []).checks
    ≡ not (is_empty (reviewed test_crates change_set site result changes 0 []).blocking_warnings)
checks-block_example = checks-block test_crates change_set site result changes 0 []

abbrev markup : Text
markup = codes "<!-- a --><p id=x>b</p><script>c</script>"

scan_markup_tags_lem_example :
    let round = scan_round test_crates true markup in
    (scan_markup_tags test_crates markup true
      ≡ round.0 ++ elim round.1 [ none ↦ [] | some rest ↦ scan_markup_tags test_crates rest true ])
    × ((rest : Text) → round.1 ≡ some rest → length rest < length markup)
scan_markup_tags_lem_example = scan_markup_tags_lem test_crates markup true

abbrev src_written : Written
src_written = record { name = codes "SRC"; quote = b'\''; value = codes "a b" }

abbrev title_written : Written
title_written = record { name = codes "title"; quote = b'"'; value = codes "it's > 1" }

abbrev two_written : List Written
two_written = src_written ∷ title_written ∷ []

two_writable : All IsWellWritten two_written
unfolding is_whitespace
two_writable =
    let first : IsWellWritten src_written = record {
      is_named = refl;
      is_name = (refl, (refl, (refl, tt)));
      is_quoted = inl refl;
      fits_quote = (refl, (refl, (refl, tt)));
    } in
    let second : IsWellWritten title_written = record {
      is_named = refl;
      is_name = (refl, (refl, (refl, (refl, (refl, tt)))));
      is_quoted = inr refl;
      fits_quote = (refl, (refl, (refl, (refl, (refl, (refl, (refl, (refl, tt))))))));
    } in
    (first, (second, tt))

parse_attributes-written_example :
    parse_attributes (written two_written)
    ≡ map (λ a. (to_ascii_lowercase a.name, a.value)) two_written
parse_attributes-written_example = parse_attributes-written two_written two_writable

reviewed_accepted_example : validate_accepted_paths test_crates review.files ≡ ok tt
reviewed_accepted_example =
    reviewed_accepted test_crates test_analysis read (codes "{}") (codes "rev-1") site review
      review_returned
