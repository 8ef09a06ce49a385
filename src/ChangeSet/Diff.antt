-- ===== src/ChangeSet/Diff.antt =====
-- apps/local-server/src/change_set.rs: the bounded diff that the review shows.
pub mod Bounds
pub mod Whole
use synapsegit_lp_studio.Prelude.Map
use synapsegit_lp_studio.ChangeSet.Types.{
  AppliedFileChange, Files, created, deleted, max_unified_diff_bytes, modified, renamed,
}
use synapsegit_lp_studio.Prelude.{
  Bool, List, Option, [], if◌then◌else◌, leb, list_eq, ltb, nat_eq, none, not, some, suc, zero, ℕ,
  ◌&&◌, ◌++◌, ◌-◌, ◌==◌, ◌||◌, ◌∷◌,
}
use synapsegit_lp_studio.Prelude.Text.{Bytes, Text, codes, is_empty, len, len_utf8, split}
use synapsegit_lp_studio.Prelude.Utf8.{from_utf8}

-- `str::is_char_boundary`: the byte positions between characters, both ends among them.
unfoldable pub is_char_boundary : Text → ℕ → Bool
unfolding len_utf8
is_char_boundary [] i = i == 0
is_char_boundary (c ∷ t) i =
    i == 0 || not (ltb i (len_utf8 c)) && is_char_boundary t (i - len_utf8 c)

-- `&value[..end]`, for a boundary `end`
unfoldable pub slice_to : Text → ℕ → Text
unfolding len_utf8
slice_to [] end = []
slice_to (c ∷ t) end =
    let rest = slice_to t (end - len_utf8 c) in if ltb end (len_utf8 c) then [] else c ∷ rest

-- `while end > 0 && !value.is_char_boundary(end) { end -= 1; }`
unfoldable pub floor_boundary : Text → ℕ → ℕ
unfolding is_char_boundary
floor_boundary value zero = zero
floor_boundary value (suc end) =
    let lower = floor_boundary value end in
    if is_char_boundary value (suc end) then suc end else lower

unfoldable pub push_bounded : Text → Text → Text
push_bounded output value =
    let remaining = max_unified_diff_bytes - len output in
    if remaining == 0
    then output
    else if leb (len value) remaining
    then output ++ value
    else output ++ slice_to value (floor_boundary value remaining)

unfoldable pub truncate_utf8 : Text → ℕ → Text
truncate_utf8 value maximum =
    slice_to value (floor_boundary value (if leb maximum (len value) then maximum else len value))

-- `str::lines`: the last line is dropped if it is empty, and keeps a carriage return.
abbrev strip_cr : Text → Text
strip_cr [] = []
strip_cr (c ∷ []) = if c == b'\r' then [] else c ∷ []
strip_cr (c ∷ d ∷ t) = c ∷ strip_cr (d ∷ t)

unfoldable pub ended_lines : List Text → List Text
ended_lines [] = []
ended_lines (line ∷ []) = if is_empty line then [] else line ∷ []
ended_lines (line ∷ next ∷ rest) = strip_cr line ∷ ended_lines (next ∷ rest)

unfoldable pub lines : Text → List Text
unfolding split ended_lines
lines t = ended_lines (split b'\n' t)

abbrev pub diff_line : ℕ → Text → Text
diff_line marker line = marker ∷ (line ++ b'\n' ∷ [])

-- The loop over the lines, with its early return.
unfoldable pub append_lines : Text → ℕ → List Text → Text
append_lines output marker [] = output
append_lines output marker (line ∷ rest) =
    let pushed = push_bounded output (diff_line marker line) in
    let more = append_lines pushed marker rest in
    if leb max_unified_diff_bytes (len pushed) then pushed else more

abbrev pub binary_notice : ℕ → Text
binary_notice marker = marker ∷ codes "[binary content omitted]\n"

unfoldable pub append_diff_content : Text → ℕ → Bytes → Text
append_diff_content output marker bytes = elim (from_utf8 bytes) [
  | none ↦ push_bounded output (binary_notice marker)
  | some text ↦ append_lines output marker (lines text)
]

-- The paths before and after a change.
unfoldable pub before_path : AppliedFileChange → Option Text
before_path change = elim change.kind [
  | created ↦ none
  | renamed ↦ change.from_path
  | deleted ↦ some change.path
  | modified ↦ some change.path
]

unfoldable pub after_path : AppliedFileChange → Option Text
after_path change = elim change.kind [
  | created ↦ some change.path
  | renamed ↦ some change.path
  | deleted ↦ none
  | modified ↦ some change.path
]

abbrev prefixed_or_null : Text → Option Text → Text
prefixed_or_null prefix none = codes "/dev/null"
prefixed_or_null prefix (some path) = prefix ++ path

abbrev or_none : Option Text → Text
or_none none = codes "none"
or_none (some hash) = hash

unfoldable pub diff_header : AppliedFileChange → Text
unfolding before_path after_path
diff_header change =
    codes "--- "
    ++ (prefixed_or_null (codes "a/") (before_path change)
        ++ (codes "\n+++ "
            ++ (prefixed_or_null (codes "b/") (after_path change)
                ++ (codes "\n@@ before="
                    ++ (or_none change.before_sha256
                        ++ (codes " after=" ++ (or_none change.after_sha256 ++ codes " @@\n")))))))

-- `if let Some(path) = path && let Some(bytes) = files.get(path)`
unfoldable pub append_file : Text → ℕ → Option Text → Files → Text
append_file output marker path files = elim path [
  | none ↦ output
  | some p ↦ elim (Map.get p files) [
    | none ↦ output
    | some bytes ↦ append_diff_content output marker bytes
  ]
]

-- One round of the loop over the changes.
unfoldable pub append_change : Files → Files → Text → AppliedFileChange → Text
append_change accepted proposed output change =
    let headed = push_bounded output (diff_header change) in
    let removed = append_file headed b'-' (before_path change) accepted in
    let added = append_file removed b'+' (after_path change) proposed in
    push_bounded added (b'\n' ∷ [])

unfoldable pub append_changes : Files → Files → Text → List AppliedFileChange → Text
append_changes accepted proposed output [] = output
append_changes accepted proposed output (change ∷ changes) =
    let appended = append_change accepted proposed output change in
    let more = append_changes accepted proposed appended changes in
    if leb max_unified_diff_bytes (len appended) then appended else more

abbrev pub truncation_notice : Text
truncation_notice = codes "\n... diff truncated ...\n"

unfoldable pub build_unified_diff : Files → Files → List AppliedFileChange → Text
build_unified_diff accepted proposed changes =
    let output = append_changes accepted proposed [] changes in
    if leb max_unified_diff_bytes (len output)
    then truncate_utf8 output (max_unified_diff_bytes - 24) ++ truncation_notice
    else output
