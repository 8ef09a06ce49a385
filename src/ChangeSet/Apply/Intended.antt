-- ===== src/ChangeSet/Apply/Intended.antt =====
-- apps/local-server/src/change_set.rs: what the loop of `apply_to_clone` computes, said path by path
-- of the Accepted files, with no intermediate state.
use synapsegit_lp_studio.ChangeSet.Types.{
  ChangeOperationV1, Crates, Files, create_text, delete, rename, replace_text, AppliedFileChange,
}
use synapsegit_lp_studio.ChangeSet.Path.{folded_path}
use synapsegit_lp_studio.ChangeSet.Graph.{operation_claims}
use synapsegit_lp_studio.ChangeSet.Graph.Claims.{claims, Separate}
use synapsegit_lp_studio.ChangeSet.Apply.{apply_operation, apply_to_clone}
use synapsegit_lp_studio.Prelude.{
  ==_iff, ==_refl, Bool, Bool-cases, List, Option, Option-cases, [], any, any_head, any_strengthen,
  any_tail, any_weaken, ap, arith, bind-eq-ok, false, if◌then◌else◌, inl, inr, list_eq, nat_eq,
  none, ok, refl, some, sym, true, ◌==◌, ◌∙◌, ◌∷◌, ◌≡◌,
}
use synapsegit_lp_studio.Prelude.Text.{Bytes, Text, as_bytes}
use synapsegit_lp_studio.Prelude.Map.{get-insert, get-remove}
use synapsegit_lp_studio.Prelude.Map

-- whether an operation names the path `j`
abbrev pub mentions : Text → ChangeOperationV1 → Bool
mentions j operation = any (λ path. path == j) (operation_claims operation)

-- what one operation leaves at `j`
unfoldable pub effect : ChangeOperationV1 → Files → Text → Option Bytes
effect (create_text path media_type content) files j =
    if path == j then some (as_bytes content) else Map.get j files
effect (replace_text path expected_sha256 media_type content) files j =
    if path == j then some (as_bytes content) else Map.get j files
effect (rename from to expected_sha256) files j =
    if to == j then Map.get from files else if from == j then none else Map.get j files
effect (delete path expected_sha256) files j = if path == j then none else Map.get j files

-- The operation that names `j`, if there is one, decides what is there, from the Accepted files.
unfoldable pub intended : List ChangeOperationV1 → Files → Text → Option Bytes
unfolding effect any operation_claims
intended [] accepted j = Map.get j accepted
intended (operation ∷ operations) accepted j =
    if mentions j operation then effect operation accepted j else intended operations accepted j

-- No later operation names a path that an earlier one names.
abbrev pub Apart : List ChangeOperationV1 → Type 0
Apart [] = Unit
Apart (operation ∷ operations) =
    ((j : Text) → mentions j operation ≡ true → any (mentions j) operations ≡ false)
    × Apart operations

folded_same :
    (crates : Crates) (j path : Text)
    → (path == j) ≡ true
    → (folded_path crates path == folded_path crates j) ≡ true
folded_same crates j path h =
    (==_iff (folded_path crates path) (folded_path crates j)).1
      (ap (λ t. folded_path crates t) ((==_iff path j).0 h))

mentions-claims :
    (crates : Crates) (j : Text) (operation : ChangeOperationV1)
    → mentions j operation ≡ true
    → claims crates (folded_path crates j) operation ≡ true
mentions-claims crates j operation =
    any_weaken _ _ (folded_same crates j) (operation_claims operation)

-- Separate claims, up to case folding, are separate paths.
pub Separate-Apart :
    (crates : Crates) (operations : List ChangeOperationV1)
    → Separate crates operations
    → Apart operations
Separate-Apart crates [] h = tt
Separate-Apart crates (operation ∷ operations) h = (
  λ j m.
      any_strengthen _ _ (mentions-claims crates j) operations
        (h.0 (folded_path crates j) (mentions-claims crates j operation m)),
  Separate-Apart crates operations h.1,
)

pub effect_unmentioned :
    (operation : ChangeOperationV1) (files : Files) (j : Text)
    → mentions j operation ≡ false
    → effect operation files j ≡ Map.get j files
unfolding effect any operation_claims
effect_unmentioned (create_text path media_type content) files j h = ground arith
effect_unmentioned _ files j h = ground arith

pub unmentioned :
    (operation : ChangeOperationV1) (operations : List ChangeOperationV1)
    → Apart (operation ∷ operations)
    → (k : Text) → any (mentions k) operations ≡ true
    → mentions k operation ≡ false
unmentioned operation operations apart k m = elim (Bool-cases (mentions k operation)) [
  | inr e ↦ e
  | inl e ↦ cc (apart.0 k e)
]

-- Two file maps that agree on what an operation names.
abbrev pub Agree : (Text → Bool) → Files → Files → Type 0
Agree named files others = (k : Text) → named k ≡ true → Map.get k files ≡ Map.get k others

effect-Agree :
    (operation : ChangeOperationV1) (files others : Files) (j : Text)
    → Agree (λ k. mentions k operation) files others
    → Map.get j files ≡ Map.get j others
    → effect operation files j ≡ effect operation others j
unfolding effect any operation_claims
effect-Agree (create_text path media_type content) files others j h e = ground arith
effect-Agree (replace_text path expected media_type content) files others j h e = ground arith
effect-Agree (delete path expected) files others j h e = ground arith
effect-Agree (rename from to expected) files others j h e = ground (arith, h from, ==_refl from)

intended_here :
    (operation : ChangeOperationV1) (operations : List ChangeOperationV1) (files : Files) (j : Text)
    → mentions j operation ≡ true
    → intended (operation ∷ operations) files j ≡ effect operation files j
unfolding intended
intended_here operation operations files j h = rw h

intended_later :
    (operation : ChangeOperationV1) (operations : List ChangeOperationV1) (files : Files) (j : Text)
    → mentions j operation ≡ false
    → intended (operation ∷ operations) files j ≡ intended operations files j
unfolding intended
intended_later operation operations files j h = rw h

intended_unmentioned :
    (operations : List ChangeOperationV1) (files : Files) (j : Text)
    → any (mentions j) operations ≡ false
    → intended operations files j ≡ Map.get j files
unfolding intended
intended_unmentioned [] files j h = refl
intended_unmentioned (operation ∷ operations) files j h =
    ground (arith, intended_unmentioned operations files j)

intended-Agree :
    (operations : List ChangeOperationV1) (files others : Files) (j : Text)
    → Agree (λ k. any (mentions k) operations) files others
    → Map.get j files ≡ Map.get j others
    → intended operations files j ≡ intended operations others j
intended-Agree [] files others j h e = unfold intended in e
intended-Agree (operation ∷ operations) files others j h e =
    elim (Bool-cases (mentions j operation)) [
      | inl here ↦
          intended_here operation operations files j here
          ∙ effect-Agree operation files others j
              (λ k m. h k (any_head (mentions k) operation operations m)) e
          ∙ sym (intended_here operation operations others j here)
      | inr elsewhere ↦
          intended_later operation operations files j elsewhere
          ∙ intended-Agree operations files others j
              (λ k m. h k (any_tail (mentions k) operation operations m)) e
          ∙ sym (intended_later operation operations others j elsewhere)
    ]

pub get-apply_operation :
    (crates : Crates) (operation : ChangeOperationV1) (files files' : Files)
    {change : AppliedFileChange} (j : Text)
    → apply_operation crates operation files ≡ ok (files', change)
    → Map.get j files' ≡ effect operation files j
unfolding apply_operation effect
get-apply_operation crates (create_text path media_type content) files files' j h =
    ground (arith, get-insert path j (as_bytes content) files)
get-apply_operation crates (replace_text path expected media_type content) files files' j h =
    ground (arith, get-insert path j (as_bytes content) files)
get-apply_operation crates (delete path expected) files files' j h =
    ground (arith, get-remove path j files)
get-apply_operation crates (rename from to expected) files files' j h =
    elim (Option-cases (Map.get from files)) [
      | inl e ↦ absurd (ground arith)
      | inr (bytes, e) ↦
          ground (arith, get-insert to j bytes (Map.remove from files), get-remove from j files)
    ]

apply_to_clone_cons :
    (crates : Crates) (operation : ChangeOperationV1) (operations : List ChangeOperationV1)
    (files : Files) {files' : Files} {changes : List AppliedFileChange}
    → apply_to_clone crates (operation ∷ operations) files ≡ ok (files', changes)
    → (middle : Files) × (change : AppliedFileChange) × (later : List AppliedFileChange)
      × (apply_operation crates operation files ≡ ok (middle, change))
      × (apply_to_clone crates operations middle ≡ ok (files', later))
      × (changes ≡ change ∷ later)
unfolding apply_to_clone
apply_to_clone_cons crates operation operations files h =
    let ((middle, change), first, more) = bind-eq-ok (apply_operation crates operation files) _ h in
    let (rest, second, last) = bind-eq-ok (apply_to_clone crates operations middle) _ more in
    (middle, change, rest.1, first, ground arith, ground arith)

-- `apply_to_clone` leaves, at each path, what the one operation on it intends, and what was there
-- where no operation names the path.
pub apply_to_clone-intended :
    (crates : Crates) (operations : List ChangeOperationV1) (files files' : Files)
    (changes : List AppliedFileChange)
    → Apart operations
    → apply_to_clone crates operations files ≡ ok (files', changes)
    → (j : Text) → Map.get j files' ≡ intended operations files j
apply_to_clone-intended crates [] files files' changes apart h j =
    unfold apply_to_clone intended in ground arith
apply_to_clone-intended crates (operation ∷ operations) files files' changes apart h j =
    let (middle, change, later, first, second, list) =
      apply_to_clone_cons crates operation operations files h in
    let ih = apply_to_clone-intended crates operations middle files' later apart.1 second j in
    let there = λ (k : Text). get-apply_operation crates operation files middle k first in
    elim (Bool-cases (mentions j operation)) [
      | inl here ↦
          ih
          ∙ intended_unmentioned operations middle j (apart.0 j here)
          ∙ there j
          ∙ sym (intended_here operation operations files j here)
      | inr elsewhere ↦
          ih
          ∙ intended-Agree operations middle files j
              (λ k m.
                there k
                ∙ effect_unmentioned operation files k (unmentioned operation operations apart k m))
              (there j ∙ effect_unmentioned operation files j elsewhere)
          ∙ sym (intended_later operation operations files j elsewhere)
    ]
