-- ===== src/ChangeSet/Validate/Limits.antt =====
-- apps/local-server/src/change_set.rs: what `validate_operations` shows of the operations.
use synapsegit_lp_studio.ChangeSet.Types.{
  ChangeOperationV1, Crates, create_text, delete, limit_exceeded, max_generated_file_bytes,
  max_generated_total_bytes, operation_conflict, redaction_placeholder, rename, replace_text,
  reserved_placeholder, usize_max,
}
use synapsegit_lp_studio.ChangeSet.Path.{validate_hash, validate_path, validate_text_media_type}
use synapsegit_lp_studio.ChangeSet.Path.Below.{IsBelowRoot, validate_path-IsBelowRoot}
use synapsegit_lp_studio.ChangeSet.Validate.{
  add_generated, same_extension, validate_generated, validate_operation, validate_operations,
  validate_operations_from,
}
use synapsegit_lp_studio.Prelude.{
  ==_iff, All, List, [], arith, bind-eq-ok, false, list_eq, ltb, nat_eq, not, ok, ok_injective,
  passes_of_reject, reject_if, seq-eq-ok, true, ℕ, ◌+◌, ◌==◌, ◌||◌, ◌∷◌, ◌≡◌, ◌≢◌, ◌≤◌,
}
use synapsegit_lp_studio.Prelude.Text.{Text, contains, len}

-- the bytes that an operation brings
abbrev pub generated : ChangeOperationV1 → ℕ
generated (create_text path media_type content) = len content
generated (replace_text path expected media_type content) = len content
generated (rename from to expected) = 0
generated (delete path expected) = 0

abbrev pub generated_sum : List ChangeOperationV1 → ℕ
generated_sum [] = 0
generated_sum (operation ∷ operations) = generated operation + generated_sum operations

-- A text that may be written: not too long, and without the mark that redaction leaves.
abbrev pub IsWritable : Text → Type 0
IsWritable content =
    (len content ≤ max_generated_file_bytes) × (contains content redaction_placeholder ≡ false)

-- Every path of the operation leads down from the root, and what it writes may be written.
abbrev pub IsSound : ChangeOperationV1 → Type 0
IsSound (create_text path media_type content) =
    IsBelowRoot path × (validate_text_media_type path media_type ≡ ok tt) × IsWritable content
IsSound (replace_text path expected media_type content) =
    IsBelowRoot path
    × (validate_text_media_type path media_type ≡ ok tt)
    × IsWritable content
    × (validate_hash expected ≡ ok tt)
IsSound (rename from to expected) =
    IsBelowRoot from
    × IsBelowRoot to
    × (validate_hash expected ≡ ok tt)
    × (from ≢ to)
    × (same_extension from to ≡ true)
IsSound (delete path expected) = IsBelowRoot path × (validate_hash expected ≡ ok tt)

add_generated_lem :
    (total total' : ℕ) (content : Text)
    → add_generated total content ≡ ok total'
    → (total' ≡ total + len content)
      × (total' ≤ max_generated_total_bytes)
      × (len content ≤ max_generated_file_bytes)
unfolding add_generated
add_generated_lem total total' content h =
    let (file, h₁) =
      seq-eq-ok (reject_if (ltb max_generated_file_bytes (len content)) limit_exceeded) _ h in
    let (overflow, h₂) =
      seq-eq-ok (reject_if (ltb usize_max (total + len content)) limit_exceeded) _ h₁ in
    let (bounded, h₃) =
      seq-eq-ok (reject_if (ltb max_generated_total_bytes (total + len content)) limit_exceeded) _
        h₂ in
    let sum = ok_injective h₃ in
    (
      ground arith,
      ground (arith, passes_of_reject _ _ bounded),
      ground (arith, passes_of_reject _ _ file),
    )

-- What one operation that brings a text has shown.
abbrev Generated : ℕ → ℕ → Text → Text → Text → Type 0
Generated total total' path media_type content =
    (total' ≡ total + len content)
    × (total' ≤ max_generated_total_bytes)
    × IsBelowRoot path
    × (validate_text_media_type path media_type ≡ ok tt)
    × IsWritable content

validate_generated_lem :
    (crates : Crates) (total total' : ℕ) (path media_type content : Text)
    → validate_generated crates total path media_type content ≡ ok total'
    → Generated total total' path media_type content
unfolding validate_generated
validate_generated_lem crates total total' path media_type content h =
    let (below, h₁) = seq-eq-ok (validate_path crates path) _ h in
    let (media, h₂) = seq-eq-ok (validate_text_media_type path media_type) _ h₁ in
    let (clean, h₃) =
      seq-eq-ok (reject_if (contains content redaction_placeholder) reserved_placeholder) _ h₂ in
    let (sum, bounded, size) = add_generated_lem total total' content h₃ in
    (
      sum,
      bounded,
      validate_path-IsBelowRoot crates path below,
      media,
      (size, passes_of_reject _ _ clean),
    )

validate_operation_lem :
    (crates : Crates) (total total' : ℕ) (operation : ChangeOperationV1)
    → total ≤ max_generated_total_bytes
    → validate_operation crates total operation ≡ ok total'
    → (total' ≡ total + generated operation)
      × (total' ≤ max_generated_total_bytes)
      × IsSound operation
unfolding validate_operation
validate_operation_lem crates total total' (create_text path media_type content) start h =
    let (sum, bounded, below, media, writable) =
      validate_generated_lem crates total total' path media_type content h in
    (sum, bounded, (below, media, writable))
validate_operation_lem crates total total' (replace_text path expected media_type content) start h =
    let (next, first, h₁) =
      bind-eq-ok (validate_generated crates total path media_type content) _ h in
    let (hash, h₂) = seq-eq-ok (validate_hash expected) _ h₁ in
    let (sum, bounded, below, media, writable) =
      validate_generated_lem crates total next path media_type content first in
    let same = ok_injective h₂ in (ground arith, ground arith, (below, media, writable, hash))
validate_operation_lem crates total total' (rename from to expected) start h =
    let (below_from, h₁) = seq-eq-ok (validate_path crates from) _ h in
    let (below_to, h₂) = seq-eq-ok (validate_path crates to) _ h₁ in
    let (hash, h₃) = seq-eq-ok (validate_hash expected) _ h₂ in
    let (proper, h₄) =
      seq-eq-ok (reject_if (from == to || not (same_extension from to)) operation_conflict) _ h₃ in
    let same = ok_injective h₄ in
    let test = passes_of_reject _ _ proper in
    (
      omega arith,
      omega arith,
      (
        validate_path-IsBelowRoot crates from below_from,
        validate_path-IsBelowRoot crates to below_to,
        hash,
        ground (arith, ==_iff from to),
        ground arith,
      ),
    )
validate_operation_lem crates total total' (delete path expected) start h =
    let (below, h₁) = seq-eq-ok (validate_path crates path) _ h in
    let (hash, h₂) = seq-eq-ok (validate_hash expected) _ h₁ in
    let same = ok_injective h₂ in
    (omega arith, omega arith, (validate_path-IsBelowRoot crates path below, hash))

validate_operations_from_lem :
    (crates : Crates) (total : ℕ) (operations : List ChangeOperationV1)
    → total ≤ max_generated_total_bytes
    → validate_operations_from crates total operations ≡ ok tt
    → (total + generated_sum operations ≤ max_generated_total_bytes) × All IsSound operations
unfolding validate_operations_from
validate_operations_from_lem crates total [] start h = (omega arith, tt)
validate_operations_from_lem crates total (operation ∷ operations) start h =
    let (next, here, h₁) = bind-eq-ok (validate_operation crates total operation) _ h in
    let (sum, bounded, sound) = validate_operation_lem crates total next operation start here in
    let (rest, all_sound) = validate_operations_from_lem crates next operations bounded h₁ in
    (omega arith, (sound, all_sound))

-- Operations that pass the validation bring 8 MiB of text at most, together, and 2 MiB each, without
-- the redaction mark; all their paths lead down from the root; the media types are those of the paths'
-- extensions; a rename keeps the extension and moves; and the expected hashes have the form of one.
pub validate_operations_lem :
    (crates : Crates) (operations : List ChangeOperationV1)
    → validate_operations crates operations ≡ ok tt
    → (generated_sum operations ≤ max_generated_total_bytes) × All IsSound operations
unfolding validate_operations
validate_operations_lem crates operations h =
    let (bounded, sound) = validate_operations_from_lem crates 0 operations (omega arith) h in
    (omega arith, sound)
