-- ===== src/ChangeSet/Diff/Bounds.antt =====
-- apps/local-server/src/change_set.rs: the size of the diff.
use synapsegit_lp_studio.ChangeSet.Types.{Files, max_unified_diff_bytes, AppliedFileChange}
use synapsegit_lp_studio.ChangeSet.Diff.{
  append_diff_content, append_file, append_lines, binary_notice, diff_line, floor_boundary, lines,
  push_bounded, slice_to, after_path, append_change, append_changes, before_path,
  build_unified_diff, diff_header, truncate_utf8, truncation_notice,
}
use synapsegit_lp_studio.Prelude.{
  List, Option, Option-cases, [], arith, if◌then◌else◌, inl, inr, leb, none, refl, some, suc, zero,
  ℕ, ◌-◌, ◌∷◌, ◌≡◌, ◌≤◌,
}
use synapsegit_lp_studio.Prelude.Text.{Bytes, Text, len, len-append, len_utf8}
use synapsegit_lp_studio.Prelude.Utf8.{from_utf8}
use synapsegit_lp_studio.Prelude.Map

floor_boundary-le : (value : Text) (end : ℕ) → floor_boundary value end ≤ end
unfolding floor_boundary
floor_boundary-le value zero = omega arith
floor_boundary-le value (suc end) = ground (arith, floor_boundary-le value end)

len-slice_to-le : (value : Text) (end : ℕ) → len (slice_to value end) ≤ end
unfolding slice_to len
len-slice_to-le [] end = omega arith
len-slice_to-le (c ∷ t) end = ground (arith, len-slice_to-le t (end - len_utf8 c))

push_bounded-le :
    (output value : Text)
    → len output ≤ max_unified_diff_bytes
    → len (push_bounded output value) ≤ max_unified_diff_bytes
unfolding push_bounded
push_bounded-le output value h =
    let remaining : ℕ = max_unified_diff_bytes - len output in
    let cut = slice_to value (floor_boundary value remaining) in
    ground (
      arith,
      len-append output value,
      len-append output cut,
      len-slice_to-le value (floor_boundary value remaining),
      floor_boundary-le value remaining,
    )

append_lines-le :
    (output : Text) (marker : ℕ) (ls : List Text)
    → len output ≤ max_unified_diff_bytes
    → len (append_lines output marker ls) ≤ max_unified_diff_bytes
unfolding append_lines
append_lines-le output marker [] h = h
append_lines-le output marker (line ∷ ls) h =
    let pushed = push_bounded-le output (diff_line marker line) h in
    ground (arith, append_lines-le (push_bounded output (diff_line marker line)) marker ls pushed)

append_diff_content-le :
    (output : Text) (marker : ℕ) (bytes : Bytes)
    → len output ≤ max_unified_diff_bytes
    → len (append_diff_content output marker bytes) ≤ max_unified_diff_bytes
unfolding append_diff_content
append_diff_content-le output marker bytes h = elim (Option-cases (from_utf8 bytes)) [
  | inl e ↦ rw (e, append_diff_content) (push_bounded-le output (binary_notice marker) h)
  | inr (text, e) ↦ rw (e, append_diff_content) (append_lines-le output marker (lines text) h)
]

append_file-le :
    (output : Text) (marker : ℕ) (path : Option Text) (files : Files)
    → len output ≤ max_unified_diff_bytes
    → len (append_file output marker path files) ≤ max_unified_diff_bytes
unfolding append_file
append_file-le output marker none files h = h
append_file-le output marker (some p) files h = elim (Option-cases (Map.get p files)) [
  | inl e ↦ rw (e, append_file) h
  | inr (bytes, e) ↦ rw (e, append_file) (append_diff_content-le output marker bytes h)
]

append_change-le :
    (accepted proposed : Files) (output : Text) (change : AppliedFileChange)
    → len output ≤ max_unified_diff_bytes
    → len (append_change accepted proposed output change) ≤ max_unified_diff_bytes
unfolding append_change
append_change-le accepted proposed output change h = push_bounded-le _ (b'\n' ∷ []) (
    append_file-le _ b'+' (after_path change) proposed (
      append_file-le _ b'-' (before_path change) accepted
        (push_bounded-le output (diff_header change) h)))

append_changes-le :
    (accepted proposed : Files) (output : Text) (changes : List AppliedFileChange)
    → len output ≤ max_unified_diff_bytes
    → len (append_changes accepted proposed output changes) ≤ max_unified_diff_bytes
unfolding append_changes
append_changes-le accepted proposed output [] h = h
append_changes-le accepted proposed output (change ∷ changes) h =
    let appended = append_change-le accepted proposed output change h in
    let more =
      append_changes-le accepted proposed (append_change accepted proposed output change) changes
        appended in
    ground arith

len-truncation_notice : len truncation_notice ≡ 24
unfolding len
len-truncation_notice = refl

-- Whatever the files and the changes, the diff has at most 256 KiB, the notice of a cut included.
pub build_unified_diff-le :
    (accepted proposed : Files) (changes : List AppliedFileChange)
    → len (build_unified_diff accepted proposed changes) ≤ max_unified_diff_bytes
unfolding build_unified_diff truncate_utf8
build_unified_diff-le accepted proposed changes =
    let output = append_changes accepted proposed [] changes in
    let bounded = append_changes-le accepted proposed [] changes (unfold len in omega arith) in
    let end : ℕ = max_unified_diff_bytes - 24 in
    let cut : ℕ = if leb end (len output) then end else len output in
    ground (
      arith,
      bounded,
      len-append (slice_to output (floor_boundary output cut)) truncation_notice,
      len-truncation_notice,
      len-slice_to-le output (floor_boundary output cut),
      floor_boundary-le output cut,
    )
