-- ===== src/ChangeSet/Diff/Whole.antt =====
-- apps/local-server/src/change_set.rs: the diff with no limit.
use mathlib.Core.List.{append-nil, append_assoc}
use synapsegit_lp_studio.ChangeSet.Types.{AppliedFileChange, Files, max_unified_diff_bytes}
use synapsegit_lp_studio.ChangeSet.Diff.{
  after_path, append_lines, before_path, binary_notice, diff_header, diff_line, lines, push_bounded,
  append_change, append_changes, append_diff_content, append_file, build_unified_diff,
}
use synapsegit_lp_studio.Prelude.{
  List, Option, Option-cases, [], arith, false, inl, inr, leb, none, refl, some, sym, ℕ, ◌++◌, ◌+◌,
  ◌<◌, ◌∙◌, ◌∷◌, ◌≡◌,
}
use synapsegit_lp_studio.Prelude.Text.{Bytes, Text, len, len-append}
use synapsegit_lp_studio.Prelude.Utf8.{from_utf8}
use synapsegit_lp_studio.Prelude.Map

unfoldable pub whole_lines : ℕ → List Text → Text
whole_lines marker [] = []
whole_lines marker (line ∷ rest) = diff_line marker line ++ whole_lines marker rest

unfoldable pub whole_content : ℕ → Bytes → Text
whole_content marker bytes = elim (from_utf8 bytes) [
  | none ↦ binary_notice marker
  | some text ↦ whole_lines marker (lines text)
]

unfoldable pub whole_file : ℕ → Option Text → Files → Text
whole_file marker none files = []
whole_file marker (some p) files = elim (Map.get p files) [
  | none ↦ []
  | some bytes ↦ whole_content marker bytes
]

unfoldable pub whole_change : Files → Files → AppliedFileChange → Text
whole_change accepted proposed change =
    diff_header change
    ++ (whole_file b'-' (before_path change) accepted
        ++ (whole_file b'+' (after_path change) proposed ++ b'\n' ∷ []))

-- every header, every removed and added line and every separator, in order
unfoldable pub whole_diff : Files → Files → List AppliedFileChange → Text
whole_diff accepted proposed [] = []
whole_diff accepted proposed (change ∷ changes) =
    whole_change accepted proposed change ++ whole_diff accepted proposed changes

push_bounded-whole :
    (output value : Text)
    → len output + len value < max_unified_diff_bytes
    → push_bounded output value ≡ output ++ value
unfolding push_bounded
push_bounded-whole output value h = ground arith

append_lines-whole :
    (output : Text) (marker : ℕ) (ls : List Text)
    → len output + len (whole_lines marker ls) < max_unified_diff_bytes
    → append_lines output marker ls ≡ output ++ whole_lines marker ls
unfolding append_lines whole_lines
append_lines-whole output marker [] h = sym (append-nil output)
append_lines-whole output marker (line ∷ ls) h =
    let here = diff_line marker line in
    let rest = whole_lines marker ls in
    let sizes = len-append here rest in
    let pushed = push_bounded-whole output here (omega (arith, sizes)) in
    let later =
      append_lines-whole (output ++ here) marker ls
        (omega (arith, sizes, len-append output here)) in
    let small : leb max_unified_diff_bytes (len (output ++ here)) ≡ false =
      ground (arith, sizes, len-append output here) in
    rw (pushed, small) (later ∙ append_assoc output here rest)

append_diff_content-whole :
    (output : Text) (marker : ℕ) (bytes : Bytes)
    → len output + len (whole_content marker bytes) < max_unified_diff_bytes
    → append_diff_content output marker bytes ≡ output ++ whole_content marker bytes
unfolding append_diff_content whole_content
append_diff_content-whole output marker bytes h = elim (Option-cases (from_utf8 bytes)) [
  | inl e ↦
      rw (e, append_diff_content, whole_content)
        (push_bounded-whole output (binary_notice marker) (rw (e, whole_content) at h))
  | inr (text, e) ↦
      rw (e, append_diff_content, whole_content)
        (append_lines-whole output marker (lines text) (rw (e, whole_content) at h))
]

append_file-whole :
    (output : Text) (marker : ℕ) (path : Option Text) (files : Files)
    → len output + len (whole_file marker path files) < max_unified_diff_bytes
    → append_file output marker path files ≡ output ++ whole_file marker path files
unfolding append_file whole_file
append_file-whole output marker none files h = sym (append-nil output)
append_file-whole output marker (some p) files h = elim (Option-cases (Map.get p files)) [
  | inl e ↦ rw (e, append_file, whole_file) (sym (append-nil output))
  | inr (bytes, e) ↦
      rw (e, append_file, whole_file)
        (append_diff_content-whole output marker bytes (rw (e, whole_file) at h))
]

append_change-whole :
    (accepted proposed : Files) (output : Text) (change : AppliedFileChange)
    → len output + len (whole_change accepted proposed change) < max_unified_diff_bytes
    → append_change accepted proposed output change
      ≡ output ++ whole_change accepted proposed change
unfolding append_change whole_change
append_change-whole accepted proposed output change h =
    let head = diff_header change in
    let removed = whole_file b'-' (before_path change) accepted in
    let added = whole_file b'+' (after_path change) proposed in
    let newline : Text = b'\n' ∷ [] in
    let s1 = len-append head (removed ++ (added ++ newline)) in
    let s2 = len-append removed (added ++ newline) in
    let s3 = len-append added newline in
    let t1 = len-append output head in
    let t2 = len-append (output ++ head) removed in
    let t3 = len-append ((output ++ head) ++ removed) added in
    let p1 = push_bounded-whole output head (omega arith) in
    let p2 = append_file-whole (output ++ head) b'-' (before_path change) accepted (omega arith) in
    let p3 =
      append_file-whole ((output ++ head) ++ removed) b'+' (after_path change) proposed
        (omega arith) in
    let p4 = push_bounded-whole (((output ++ head) ++ removed) ++ added) newline (omega arith) in
    rw (p1, p2, p3) (p4 ∙ simp append_assoc)

append_changes-whole :
    (accepted proposed : Files) (output : Text) (changes : List AppliedFileChange)
    → len output + len (whole_diff accepted proposed changes) < max_unified_diff_bytes
    → append_changes accepted proposed output changes
      ≡ output ++ whole_diff accepted proposed changes
unfolding append_changes whole_diff
append_changes-whole accepted proposed output [] h = sym (append-nil output)
append_changes-whole accepted proposed output (change ∷ changes) h =
    let here = whole_change accepted proposed change in
    let rest = whole_diff accepted proposed changes in
    let sizes = len-append here rest in
    let joined = len-append output here in
    let pushed = append_change-whole accepted proposed output change (omega arith) in
    let later = append_changes-whole accepted proposed (output ++ here) changes (omega arith) in
    let small : leb max_unified_diff_bytes (len (output ++ here)) ≡ false = ground arith in
    rw (pushed, small) (later ∙ append_assoc output here rest)

-- A diff that stays below 256 KiB is shown whole: the header, the removed and the added lines of
-- each change, in order, with nothing cut.
pub build_unified_diff-whole :
    (accepted proposed : Files) (changes : List AppliedFileChange)
    → len (whole_diff accepted proposed changes) < max_unified_diff_bytes
    → build_unified_diff accepted proposed changes ≡ whole_diff accepted proposed changes
unfolding build_unified_diff
build_unified_diff-whole accepted proposed changes h =
    let whole = append_changes-whole accepted proposed [] changes (unfold len in omega arith) in
    let small : leb max_unified_diff_bytes (len (whole_diff accepted proposed changes)) ≡ false =
      ground arith in
    rw (whole, small) refl
