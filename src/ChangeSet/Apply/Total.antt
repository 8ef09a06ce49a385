-- ===== src/ChangeSet/Apply/Total.antt =====
-- apps/local-server/src/change_set.rs: `apply_to_clone` behind the validation, and the changes that it
-- records.
use synapsegit_lp_studio.ChangeSet.Types.{
  AppliedFileChange, ChangeOperationV1, Crates, Files, create_text, created, delete, deleted,
  modified, rename, renamed, replace_text,
}
use synapsegit_lp_studio.ChangeSet.Path.{folded_path, sha256}
use synapsegit_lp_studio.ChangeSet.Graph.{operation_claims, validate_operation_graph}
use synapsegit_lp_studio.ChangeSet.Apply.{
  apply_operation, apply_to_clone, folded_exists, require_file_hash, validate_precondition,
  validate_preconditions,
}
use synapsegit_lp_studio.ChangeSet.Apply.Intended.{
  Agree, Apart, effect_unmentioned, get-apply_operation, mentions, unmentioned, Separate-Apart,
  apply_to_clone-intended, intended,
}
use synapsegit_lp_studio.ChangeSet.Graph.Claims.{validate_operation_graph-Separate}
use synapsegit_lp_studio.Prelude.{
  ==_iff, ==_refl, All, List, Option-cases, [], any, any_head, any_tail, arith, false, inl, inr,
  list_eq, map, nat_eq, none, ok, refl, seq-eq-ok, some, true, ◌∙◌, ◌∷◌, ◌≡◌,
}
use synapsegit_lp_studio.Prelude.Text.{Bytes, Text, as_bytes}
use synapsegit_lp_studio.Prelude.Map.{get-remove}
use synapsegit_lp_studio.Prelude.Map

-- The file at the path has the hash.
abbrev pub HasHash : Crates → Files → Text → Text → Type 0
HasHash crates files path hash =
    (bytes : Bytes) × (Map.get path files ≡ some bytes) × (sha256 crates bytes ≡ hash)

-- The operation can be applied to the files.
abbrev pub Fits : Crates → Files → ChangeOperationV1 → Type 0
Fits crates files (create_text path media_type content) = Map.get path files ≡ none
Fits crates files (replace_text path expected media_type content) =
    HasHash crates files path expected
Fits crates files (rename from to expected) =
    HasHash crates files from expected × (Map.get to files ≡ none)
Fits crates files (delete path expected) = HasHash crates files path expected

-- The change as the operation announces it, with the hash that it expects.
abbrev pub described : Crates → ChangeOperationV1 → AppliedFileChange
described crates (create_text path media_type content) = record {
  path = path;
  kind = created;
  from_path = none;
  before_sha256 = none;
  after_sha256 = some (sha256 crates (as_bytes content));
}
described crates (replace_text path expected media_type content) = record {
  path = path;
  kind = modified;
  from_path = none;
  before_sha256 = some expected;
  after_sha256 = some (sha256 crates (as_bytes content));
}
described crates (rename from to expected) = record {
  path = to;
  kind = renamed;
  from_path = some from;
  before_sha256 = some expected;
  after_sha256 = some expected;
}
described crates (delete path expected) = record {
  path = path;
  kind = deleted;
  from_path = none;
  before_sha256 = some expected;
  after_sha256 = none;
}

module _ (crates : Crates) where
  folded_exists_of_get :
      (files : Files) (path : Text) (bytes : Bytes)
      → Map.get path files ≡ some bytes
      → folded_exists crates files path ≡ true
  unfolding folded_exists Map.get
  folded_exists_of_get [] path bytes h = cc
  folded_exists_of_get ((other, v) ∷ files) path bytes h = ground (
    arith,
    folded_exists_of_get files path bytes,
    ==_iff other path,
    ==_refl (folded_path crates path),
  )

  absent_of_folded :
      (files : Files) (path : Text)
      → folded_exists crates files path ≡ false
      → Map.get path files ≡ none
  absent_of_folded files path h = elim (Option-cases (Map.get path files)) [
    | inl e ↦ e
    | inr (bytes, e) ↦ cc (folded_exists_of_get files path bytes e)
  ]

  require_file_hash-HasHash :
      (files : Files) (path hash : Text)
      → require_file_hash crates files path hash ≡ ok tt
      → HasHash crates files path hash
  unfolding require_file_hash
  require_file_hash-HasHash files path hash h = elim (Option-cases (Map.get path files)) [
    | inl e ↦ absurd (ground arith)
    | inr (bytes, e) ↦ (bytes, e, ground (arith, ==_iff (sha256 crates bytes) hash))
  ]

  validate_precondition-Fits :
      (accepted : Files) (operation : ChangeOperationV1)
      → validate_precondition crates accepted operation ≡ ok tt
      → Fits crates accepted operation
  unfolding validate_precondition
  validate_precondition-Fits accepted (create_text path media_type content) h =
      absent_of_folded accepted path (ground arith)
  validate_precondition-Fits accepted (replace_text path expected media_type content) h =
      require_file_hash-HasHash accepted path expected h
  validate_precondition-Fits accepted (delete path expected) h =
      require_file_hash-HasHash accepted path expected h
  validate_precondition-Fits accepted (rename from to expected) h =
      let (source, target) = seq-eq-ok (require_file_hash crates accepted from expected) _ h in
      (
        require_file_hash-HasHash accepted from expected source,
        absent_of_folded accepted to (ground arith),
      )

  validate_preconditions-Fits :
      (operations : List ChangeOperationV1) (accepted : Files)
      → validate_preconditions crates operations accepted ≡ ok tt
      → All (Fits crates accepted) operations
  unfolding validate_preconditions
  validate_preconditions-Fits [] accepted h = tt
  validate_preconditions-Fits (operation ∷ operations) accepted h =
      let (first, rest) = seq-eq-ok (validate_precondition crates accepted operation) _ h in
      (
        validate_precondition-Fits accepted operation first,
        validate_preconditions-Fits operations accepted rest,
      )

  Fits-apply_operation :
      (operation : ChangeOperationV1) (files : Files)
      → Fits crates files operation
      → (files' : Files) × (apply_operation crates operation files
          ≡ ok (files', described crates operation))
  unfolding apply_operation
  Fits-apply_operation (create_text path media_type content) files h =
      (Map.insert path (as_bytes content) files, ground arith)
  Fits-apply_operation (replace_text path expected media_type content) files (bytes, h, e) =
      (Map.insert path (as_bytes content) files, ground arith)
  Fits-apply_operation (delete path expected) files (bytes, h, e) =
      (Map.remove path files, ground arith)
  Fits-apply_operation (rename from to expected) files ((bytes, h, e), free) =
      (Map.insert to bytes (Map.remove from files), ground (arith, get-remove from to files))

  HasHash-agree :
      (files others : Files) (path hash : Text)
      → Map.get path others ≡ Map.get path files
      → HasHash crates files path hash
      → HasHash crates others path hash
  HasHash-agree files others path hash same_there (bytes, h, e) = (bytes, same_there ∙ h, e)

  Fits-Agree :
      (operation : ChangeOperationV1) (files others : Files)
      → Agree (λ k. mentions k operation) others files
      → Fits crates files operation
      → Fits crates others operation
  unfolding any operation_claims
  Fits-Agree (create_text path media_type content) files others agree h =
      agree path (ground (arith, ==_refl path)) ∙ h
  Fits-Agree (replace_text path expected media_type content) files others agree h =
      HasHash-agree files others path expected (agree path (ground (arith, ==_refl path))) h
  Fits-Agree (delete path expected) files others agree h =
      HasHash-agree files others path expected (agree path (ground (arith, ==_refl path))) h
  Fits-Agree (rename from to expected) files others agree h = (
    HasHash-agree files others from expected (agree from (ground (arith, ==_refl from))) h.0,
    agree to (ground (arith, ==_refl to)) ∙ h.1,
  )

  All-Fits-Agree :
      (operations : List ChangeOperationV1) (files others : Files)
      → Agree (λ k. any (mentions k) operations) others files
      → All (Fits crates files) operations
      → All (Fits crates others) operations
  All-Fits-Agree [] files others agree h = tt
  All-Fits-Agree (operation ∷ operations) files others agree h = (
    Fits-Agree operation files others
        (λ k m. agree k (any_head (mentions k) operation operations m)) h.0,
    All-Fits-Agree operations files others
        (λ k m. agree k (any_tail (mentions k) operation operations m)) h.1,
  )

  apply_to_clone_step :
      (operation : ChangeOperationV1) (operations : List ChangeOperationV1) (files : Files)
      {middle last : Files} {change : AppliedFileChange} {changes : List AppliedFileChange}
      → apply_operation crates operation files ≡ ok (middle, change)
      → apply_to_clone crates operations middle ≡ ok (last, changes)
      → apply_to_clone crates (operation ∷ operations) files ≡ ok (last, change ∷ changes)
  unfolding apply_to_clone
  apply_to_clone_step operation operations files first rest = ground arith

  pub Fits-apply_to_clone :
      (operations : List ChangeOperationV1) (files : Files)
      → Apart operations
      → All (Fits crates files) operations
      → (files' : Files) × (apply_to_clone crates operations files
          ≡ ok (files', map (described crates) operations))
  Fits-apply_to_clone [] files apart fits = (files, unfold apply_to_clone in refl)
  Fits-apply_to_clone (operation ∷ operations) files apart fits =
      let (middle, first) = Fits-apply_operation operation files fits.0 in
      let there = λ (k : Text) (m : any (mentions k) operations ≡ true).
        get-apply_operation crates operation files middle k first
        ∙ effect_unmentioned operation files k (unmentioned operation operations apart k m) in
      let (last, rest) =
        Fits-apply_to_clone operations middle apart.1
          (All-Fits-Agree operations files middle there fits.1) in
      (last, apply_to_clone_step operation operations files first rest)

-- Operations that pass the graph and the precondition checks are all applied, whatever the content
-- of the files: `apply_to_clone` succeeds; the recorded changes are the announced ones, with the
-- expected hashes as the hashes before; and each path holds what the one operation on it intends,
-- or what it held.
pub validated_applies :
    (crates : Crates) (operations : List ChangeOperationV1) (accepted : Files)
    → validate_operation_graph crates operations ≡ ok tt
    → validate_preconditions crates operations accepted ≡ ok tt
    → (files : Files) × (apply_to_clone crates operations accepted
        ≡ ok (files, map (described crates) operations))
      × ((j : Text) → Map.get j files ≡ intended operations accepted j)
validated_applies crates operations accepted graph preconditions =
    let apart =
      Separate-Apart crates operations
        (validate_operation_graph-Separate crates operations graph) in
    let (files, applied) =
      Fits-apply_to_clone crates operations accepted apart
        (validate_preconditions-Fits crates operations accepted preconditions) in
    (files, applied, apply_to_clone-intended crates operations accepted files _ apart applied)
