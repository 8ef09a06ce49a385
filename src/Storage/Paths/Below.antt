-- ===== src/Storage/Paths/Below.antt =====
-- apps/local-server/src/storage.rs: what a path that passes `validate_canonical_path` is.
use synapsegit_lp_studio.Storage.Paths.{
  import_limit, is_unsafe_path, is_unsafe_segment, unsafe_import, validate_canonical_path,
}
use synapsegit_lp_studio.ChangeSet.Types.{Crates, max_path_bytes, max_path_depth}
use synapsegit_lp_studio.ChangeSet.Path.Below.{IsBelowRoot, segments-IsBelowRoot}
use synapsegit_lp_studio.Prelude.{
  ==_iff, [], any, arith, false, length, list_eq, ltb, nat_eq, ok, passes_of_reject, reject_if,
  seq-eq-ok, ◌≡◌, ◌≢◌, ◌≤◌,
}
use synapsegit_lp_studio.Prelude.Text.{Text, codes, contains_char, len, split}

is_unsafe_segment_named :
    (s : Text) → is_unsafe_segment s ≡ false → (s ≢ []) × (s ≢ codes ".") × (s ≢ codes "..")
unfolding is_unsafe_segment
is_unsafe_segment_named s h =
    (ground arith, ground (arith, ==_iff s (codes ".")), ground (arith, ==_iff s (codes "..")))

is_unsafe_path_parts :
    (crates : Crates) (path : Text)
    → is_unsafe_path crates path ≡ false
    → (len path ≤ max_path_bytes) × (contains_char path b'\\' ≡ false)
unfolding is_unsafe_path
is_unsafe_path_parts crates path h = (ground arith, ground arith)

-- A path that passes `validate_canonical_path` leads down from the root: at most 16 names and 512
-- bytes, none of them empty, `.` or `..`, none with a slash or a backslash.
pub validate_canonical_path-IsBelowRoot :
    (crates : Crates) (path : Text) → validate_canonical_path crates path ≡ ok tt → IsBelowRoot path
unfolding validate_canonical_path
validate_canonical_path-IsBelowRoot crates path h =
    let parts = split b'/' path in
    let (text, h₁) = seq-eq-ok (reject_if (is_unsafe_path crates path) unsafe_import) _ h in
    let (deep, h₂) = seq-eq-ok (reject_if (ltb max_path_depth (length parts)) import_limit) _ h₁ in
    let segments = passes_of_reject (any is_unsafe_segment parts) _ h₂ in
    let (size, back) = is_unsafe_path_parts crates path (ground arith) in
    segments-IsBelowRoot is_unsafe_segment path is_unsafe_segment_named size back (ground arith)
      segments
