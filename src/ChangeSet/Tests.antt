-- ===== src/ChangeSet/Tests.antt =====
-- apps/local-server/src/change_set.rs: runs on a small site.
use synapsegit_lp_studio.ChangeSet.Types.{
  ChangeOperationV1, ChangeSetV1, Crates, Files, StaticAnalysis, create_text, delete,
  invalid_local_reference, new_change_set, rename, replace_text, AppliedChangeSet,
}
use synapsegit_lp_studio.ChangeSet.Path.{
  sha256, validate_path, ends_with_blank_or_dot, reserved_path, unsafe_segment, unsafe_text,
  windows_reserved, is_device_number, to_lowercase,
}
use synapsegit_lp_studio.ChangeSet.Graph.{validate_operation_graph}
use synapsegit_lp_studio.ChangeSet.Validate.{
  validate_operations, validate_accepted_paths, validate_envelope,
}
use synapsegit_lp_studio.ChangeSet.Apply.{
  validate_preconditions, apply_to_clone, validate_export_deny_list, validate_final_case_collisions,
}
use synapsegit_lp_studio.ChangeSet.Reference.{
  resolve_local_reference, before_suffix, directory_segments, is_forbidden, is_not_local,
  percent_bytes, percent_decode, resolve_inside, walk, finish_resolution, hex_value, pop,
}
use synapsegit_lp_studio.ChangeSet.Review.{
  FromStr, apply_change_set, parse_and_apply_change_set, reviewed, validate_change_set,
  validate_result, validate_local_references, validate_references,
}
use synapsegit_lp_studio.ChangeSet.Apply.Total.{described}
use synapsegit_lp_studio.StaticExport.{ReferenceScan}
use synapsegit_lp_studio.StaticExport.Scan.{no_references, scan_references}
use synapsegit_lp_studio.StaticExport.Tags.{
  export_at, export_attribute, export_attributes_from, export_round, export_tag_at, export_tag_body,
  export_tags_from, export_value, is_bad_name_char, export_element,
}
use synapsegit_lp_studio.Prelude.{
  List, [], all, any, err, false, if◌then◌else◌, length, list_beq, list_eq, map, nat_eq, none, ok,
  pair_eq, refl, some, ◌%◌, ◌++◌, ◌+◌, ◌∷◌, ◌≡◌,
}
use synapsegit_lp_studio.Prelude.Text.{
  as_bytes, codes, contains, contains_char, ends_with, is_control, is_empty, is_one_of,
  is_whitespace, join, last_or_empty, len, len_utf8, rsplit_once, split, split_once, starts_with,
  strip_prefix, to_ascii_lower, to_ascii_lowercase, trim, trim_start_matches, utf8_char,
}
use synapsegit_lp_studio.Prelude.Utf8.{decode, from_utf8, lead_byte, next_byte}
use synapsegit_lp_studio.Prelude.Map
use synapsegit_lp_studio.Prelude.Set

-- What the other crates answer here: texts are in normal form, hashes hold the size alone.
abbrev pub test_crates : Crates
test_crates = record {
  nfc = λ t. t;
  folded = to_ascii_lowercase;
  digest =
      λ bytes. map (λ zero. zero + length bytes % 256) (codes "00000000000000000000000000000000");
  unicode_lowercase = λ t. t;
  parse_url = λ t. none;
  set_username = λ username url. some (record url { username = username });
  set_password = λ password url. some (record url { password = password });
  set_query = λ query url. record url { query = query };
  set_fragment = λ fragment url. record url { fragment = fragment };
  as_str = λ url. url.origin ++ url.path;
}

abbrev pub test_analysis : StaticAnalysis
test_analysis = record { validate_resulting_site = λ files. some 0 }

abbrev pub site : Files
site =
    (codes "css/old.css", codes "p{}")
    ∷ (codes "gone.txt", codes "x")
    ∷ (codes "index.html", codes "<p>Hi</p>")
    ∷ []

abbrev pub operations : List ChangeOperationV1
operations =
    rename (codes "css/old.css") (codes "css/new.css") (sha256 test_crates (codes "p{}"))
    ∷ replace_text (codes "index.html") (sha256 test_crates (codes "<p>Hi</p>")) (codes "text/html")
        (codes "<link href='css/new.css?v=1'>")
    ∷ delete (codes "gone.txt") (sha256 test_crates (codes "x"))
    ∷ create_text (codes "note.txt") (codes "text/plain") (codes "n")
    ∷ []

abbrev pub change_set : ChangeSetV1
change_set = new_change_set (codes "rev-1") (codes "A new heading.") operations

abbrev pub read : FromStr
read raw = if is_empty raw then none else some change_set

pub graph_passes : validate_operation_graph test_crates operations ≡ ok tt
unfolding validate_operation_graph Map.insert Map.get list_beq to_ascii_lowercase Set.contains
    Map.text_lt
graph_passes = refl

pub preconditions_pass : validate_preconditions test_crates operations site ≡ ok tt
unfolding validate_preconditions Map.get list_beq sha256 to_ascii_lowercase
preconditions_pass = refl

pub operations_pass : validate_operations test_crates operations ≡ ok tt
unfolding validate_operations unsafe_text contains_char list_beq is_control split unsafe_segment
    ends_with_blank_or_dot windows_reserved reserved_path sha256 as_bytes
operations_pass = refl

pub path_passes : validate_path test_crates (codes "css/new.css") ≡ ok tt
unfolding validate_path unsafe_text len starts_with contains_char list_beq is_control split
    unsafe_segment ends_with_blank_or_dot windows_reserved reserved_path all
path_passes = refl

pub resolves :
    resolve_local_reference test_crates (codes "blog/a.html") (codes " ../css/new%2Ecss?v=1 ")
    ≡ ok (some (codes "css/new.css"))
unfolding resolve_local_reference is_not_local trim is_forbidden resolve_inside percent_decode
    percent_bytes as_bytes before_suffix from_utf8 walk split list_beq directory_segments
    finish_resolution join validate_path unsafe_text ends_with_blank_or_dot is_device_number
    reserved_path to_lowercase unsafe_segment windows_reserved hex_value pop all any contains_char
    ends_with is_control is_one_of is_whitespace last_or_empty len len_utf8 rsplit_once split_once
    starts_with strip_prefix to_ascii_lower to_ascii_lowercase trim_start_matches utf8_char decode
    lead_byte next_byte
resolves = refl

leaves :
    resolve_local_reference test_crates (codes "blog/a.html") (codes "../../x.css")
    ≡ err invalid_local_reference
unfolding resolve_local_reference is_not_local trim is_forbidden resolve_inside percent_decode
    percent_bytes as_bytes before_suffix from_utf8 walk split list_beq directory_segments
leaves = refl

-- What the review of these operations holds.
abbrev pub result : Files
result =
    (codes "css/new.css", codes "p{}")
    ∷ (codes "index.html", codes "<link href='css/new.css?v=1'>")
    ∷ (codes "note.txt", codes "n")
    ∷ []

abbrev pub review : AppliedChangeSet
review = reviewed test_crates change_set site result (map (described test_crates) operations) 0 []

envelope_passes : validate_envelope change_set (codes "rev-1") ≡ ok tt
unfolding validate_envelope new_change_set list_beq
envelope_passes = refl

accepted_passes : validate_accepted_paths test_crates site ≡ ok tt
unfolding validate_accepted_paths unsafe_text len starts_with contains_char list_beq is_control
    split unsafe_segment ends_with_blank_or_dot windows_reserved reserved_path all contains
    Map.insert Set.insert Set.contains
accepted_passes = refl

pub change_set_passes : validate_change_set test_crates change_set (codes "rev-1") site ≡ ok tt
unfolding validate_change_set new_change_set
change_set_passes =
    rw (envelope_passes, accepted_passes, operations_pass, graph_passes) preconditions_pass

final_passes : validate_final_case_collisions test_crates result ≡ ok tt
unfolding validate_final_case_collisions contains Map.insert Set.insert list_beq to_ascii_lowercase
    Set.contains
final_passes = refl

abbrev link_found : ReferenceScan
link_found = record {
  references = codes "css/new.css?v=1" ∷ [];
  dynamic_capable = false;
  analysis_incomplete = false;
}

scan_of_index :
    scan_references (codes "index.html") (codes "<link href='css/new.css?v=1'>") ≡ ok link_found
unfolding scan_references list_beq export_tags_from export_round export_at export_tag_at
    export_tag_body export_attributes_from export_attribute is_bad_name_char export_value
    export_element
scan_of_index = refl

scan_of_style : scan_references (codes "css/new.css") (codes "p{}") ≡ ok no_references
unfolding scan_references list_beq
scan_of_style = refl

scan_of_note : scan_references (codes "note.txt") (codes "n") ≡ ok no_references
unfolding scan_references
scan_of_note = refl

link_passes :
    validate_references test_crates result (codes "index.html") (codes "css/new.css?v=1" ∷ [])
    ≡ ok tt
unfolding validate_references Map.get resolve_local_reference is_not_local trim is_forbidden
    resolve_inside percent_decode percent_bytes as_bytes before_suffix from_utf8 walk split list_beq
    directory_segments finish_resolution join validate_path unsafe_text ends_with_blank_or_dot
    is_device_number reserved_path to_lowercase unsafe_segment windows_reserved hex_value pop all
    any contains_char ends_with is_control is_one_of is_whitespace last_or_empty len len_utf8
    rsplit_once split_once starts_with strip_prefix to_ascii_lower to_ascii_lowercase
    trim_start_matches utf8_char decode lead_byte next_byte
link_passes = refl

references_pass : validate_local_references test_crates result ≡ ok []
unfolding validate_local_references validate_references
references_pass = rw (scan_of_style, scan_of_index, link_passes, scan_of_note) refl

deny_list_passes : validate_export_deny_list test_crates result ≡ ok tt
unfolding validate_export_deny_list all to_ascii_lowercase list_beq
deny_list_passes = refl

result_passes : validate_result test_crates test_analysis result ≡ ok (0, [])
unfolding validate_result Map.get list_beq
result_passes = rw (final_passes, references_pass, deny_list_passes) refl

applies :
    apply_to_clone test_crates operations site ≡ ok (result, map (described test_crates) operations)
unfolding apply_to_clone Map.get list_beq Map.remove Map.insert Set.insert Map.text_lt as_bytes
applies = refl

pub review_returned :
    parse_and_apply_change_set test_crates test_analysis read (codes "{}") (codes "rev-1") site
    ≡ ok review
unfolding parse_and_apply_change_set apply_change_set new_change_set
review_returned = rw (change_set_passes, applies, result_passes) refl
