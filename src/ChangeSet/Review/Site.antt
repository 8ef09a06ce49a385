-- ===== src/ChangeSet/Review/Site.antt =====
-- apps/local-server/src/change_set.rs: what a ChangeSet that is accepted for review has shown.
use synapsegit_lp_studio.ChangeSet.Types.{
  ChangeSetError, Crates, Files, StaticAnalysis, invalid_local_reference, missing_entry_point,
  operation_conflict, reserved,
}
use synapsegit_lp_studio.ChangeSet.Path.{folded_path, reserved_path}
use synapsegit_lp_studio.ChangeSet.Apply.{
  all_new, validate_export_deny_list, validate_final_case_collisions,
}
use synapsegit_lp_studio.ChangeSet.Reference.{resolve_local_reference}
use synapsegit_lp_studio.ChangeSet.Review.{
  or_fail, validate_local_references_from, validate_reference, validate_references, require_target,
  validate_local_references, validate_result, validate_static_syntax,
}
use synapsegit_lp_studio.StaticExport.{ReferenceScan}
use synapsegit_lp_studio.StaticExport.Scan.{scan_references}
use synapsegit_lp_studio.Prelude.{
  ==_iff, All, Bool, Bool-cases, List, Option, [], any, ap, arith, bind-eq-ok, false, inl, inr,
  list_eq, map_err, map_err-eq-ok, nat_eq, none, not, ok, pair_eq, passes_of_reject, reject_if,
  seq-eq-ok, some, subst, sym, true, ℕ, ◌++◌, ◌==◌, ◌||◌, ◌∙◌, ◌∷◌, ◌≡◌,
}
use synapsegit_lp_studio.Prelude.Text.{Bytes, Text, codes}
use synapsegit_lp_studio.Prelude.Map.{BTreeSet}
use synapsegit_lp_studio.Prelude.Set.{HashSet, contains-insert}
use synapsegit_lp_studio.Prelude.Map
use synapsegit_lp_studio.Prelude.Set

-- The loop over the paths finds two that fold to one.
module _ (crates : Crates) where
  all_new-fresh :
      (paths : List Text) (folded : HashSet Text) (p : Text)
      → all_new crates paths folded ≡ true
      → Set.contains p paths ≡ true
      → Set.contains (folded_path crates p) folded ≡ false
  unfolding all_new Set.contains
  all_new-fresh [] folded p h there = cc
  all_new-fresh (q ∷ paths) folded p h there = elim (Bool-cases (q == p)) [
    | inl same ↦
        let q-is-p = ap (folded_path crates) ((==_iff q p).0 same) in ground (arith, q-is-p)
    | inr other ↦
        let later =
          all_new-fresh paths (Set.insert (folded_path crates q) folded) p (ground arith)
            (ground arith) in
        ground (arith, later, contains-insert (folded_path crates q) (folded_path crates p) folded)
  ]

  all_new-distinct :
      (paths : List Text) (folded : HashSet Text) (p q : Text)
      → all_new crates paths folded ≡ true
      → Set.contains p paths ≡ true
      → Set.contains q paths ≡ true
      → folded_path crates p ≡ folded_path crates q
      → p ≡ q
  unfolding all_new Set.contains
  all_new-distinct [] folded p q h p-there q-there same = cc
  all_new-distinct (r ∷ paths) folded p q h p-there q-there same =
      let insert = contains-insert (folded_path crates r) in
      elim (Bool-cases (r == p)) [
        | inl r-is-p ↦ elim (Bool-cases (r == q)) [
          | inl r-is-q ↦ sym ((==_iff r p).0 r-is-p) ∙ (==_iff r q).0 r-is-q
          | inr other ↦
              let clash : folded_path crates r ≡ folded_path crates q =
                ap (folded_path crates) ((==_iff r p).0 r-is-p) ∙ same in
              let later =
                all_new-fresh paths (Set.insert (folded_path crates r) folded) q (ground arith)
                  (ground arith) in
              absurd (
                ground (
                  arith,
                  later,
                  clash,
                  insert (folded_path crates q) folded,
                  ==_iff (folded_path crates r) (folded_path crates q),
                ))
        ]
        | inr not-p ↦ elim (Bool-cases (r == q)) [
          | inl r-is-q ↦
              let clash : folded_path crates r ≡ folded_path crates p =
                ap (folded_path crates) ((==_iff r q).0 r-is-q) ∙ sym same in
              let later =
                all_new-fresh paths (Set.insert (folded_path crates r) folded) p (ground arith)
                  (ground arith) in
              absurd (
                ground (
                  arith,
                  later,
                  clash,
                  insert (folded_path crates p) folded,
                  ==_iff (folded_path crates r) (folded_path crates p),
                ))
          | inr not-q ↦
              all_new-distinct paths (Set.insert (folded_path crates r) folded) p q (ground arith)
                (ground arith) (ground arith) same
        ]
      ]

-- A file of the map is among its keys.
pub contains-keys :
    (files : Files) (path : Text) (bytes : Bytes)
    → Map.get path files ≡ some bytes
    → Set.contains path (Map.keys files) ≡ true
unfolding Map.get Set.contains
contains-keys [] path bytes h = cc
contains-keys ((j, w) ∷ files) path bytes h = ground (arith, contains-keys files path bytes)

any-contains :
    (p : Text → Bool) (paths : List Text) (path : Text)
    → any p paths ≡ false
    → Set.contains path paths ≡ true
    → p path ≡ false
unfolding any Set.contains
any-contains p [] path h there = cc
any-contains p (q ∷ paths) path h there = elim (Bool-cases (q == path)) [
  | inl same ↦ let q-is = ap p ((==_iff q path).0 same) in ground (arith, q-is)
  | inr other ↦ ground (arith, any-contains p paths path)
]

-- The reference is not local, or it leads to a file of the site.
abbrev pub LeadsInside : Crates → Files → Text → Text → Type 0
LeadsInside crates files source_path reference =
    (resolved : Option Text) × (resolve_local_reference crates source_path reference ≡ ok resolved)
    × ((path : Text)
        → resolved ≡ some path
        → (Map.contains_key path files || Map.contains_key (path ++ codes "/index.html") files)
          ≡ true)

require_target-found :
    (files : Files) (resolved : Option Text)
    → require_target files resolved ≡ ok tt
    → (path : Text) → resolved ≡ some path
    → (Map.contains_key path files || Map.contains_key (path ++ codes "/index.html") files) ≡ true
require_target-found files none h path e = cc
require_target-found files (some p) h path e =
    let p-is : p ≡ path = cc in
    subst
      (λ u. (Map.contains_key u files || Map.contains_key (u ++ codes "/index.html") files) ≡ true)
      p-is (ground arith)

validate_reference-LeadsInside :
    (crates : Crates) (files : Files) (source_path reference : Text)
    → validate_reference crates files source_path reference ≡ ok tt
    → LeadsInside crates files source_path reference
unfolding validate_reference
validate_reference-LeadsInside crates files source_path reference h =
    let (resolved, e, next) =
      bind-eq-ok (resolve_local_reference crates source_path reference) _ h in
    (resolved, e, require_target-found files resolved next)

validate_references-LeadsInside :
    (crates : Crates) (files : Files) (source_path : Text) (references : List Text)
    → validate_references crates files source_path references ≡ ok tt
    → All (LeadsInside crates files source_path) references
unfolding validate_references
validate_references-LeadsInside crates files source_path [] h = tt
validate_references-LeadsInside crates files source_path (reference ∷ references) h =
    let (here, later) = seq-eq-ok (validate_reference crates files source_path reference) _ h in
    (
      validate_reference-LeadsInside crates files source_path reference here,
      validate_references-LeadsInside crates files source_path references later,
    )

-- What the scan finds in the file leads inside.
abbrev pub HasReferencesInside : Crates → Files → Text → Bytes → Type 0
HasReferencesInside crates files path bytes =
    (scan : ReferenceScan) × (scan_references path bytes ≡ ok scan)
    × All (LeadsInside crates files path) scan.references

pub or_fail-some :
    {A : Type 0} (o : Option A) (e : ChangeSetError) (a : A) → or_fail o e ≡ ok a → o ≡ some a
or_fail-some none e a h = cc
or_fail-some (some b) e a h = cc

local_references_inside :
    (crates : Crates) (files rest : Files) (sources last : BTreeSet)
    → validate_local_references_from crates files rest sources ≡ ok last
    → (path : Text) (bytes : Bytes) → Map.get path rest ≡ some bytes
    → HasReferencesInside crates files path bytes
unfolding validate_local_references_from Map.get
local_references_inside crates files [] sources last h path bytes there = cc
local_references_inside crates files ((source, content) ∷ rest) sources last h path bytes there =
    let (scan, found, h₁) =
      bind-eq-ok (map_err (λ e. invalid_local_reference) (scan_references source content)) _ h in
    let (here, h₂) = seq-eq-ok (validate_references crates files source scan.references) _ h₁ in
    elim (Bool-cases (source == path)) [
      | inl same ↦
          let content-is : content ≡ bytes = ground arith in
          let inside : HasReferencesInside crates files source content = (
            scan,
            map_err-eq-ok _ (scan_references source content) scan found,
            validate_references-LeadsInside crates files source scan.references here,
          ) in
          subst (λ u. HasReferencesInside crates files u bytes) ((==_iff source path).0 same)
            (subst (HasReferencesInside crates files source) content-is inside)
      | inr other ↦ local_references_inside crates files rest _ last h₂ path bytes (ground arith)
    ]

-- What the checks of the result show of the files.
pub record IsPublishable (crates : Crates) (analysis : StaticAnalysis) (files : Files)
    : Type 0 where
  pub entry_point : Map.contains_key (codes "index.html") files ≡ true
  pub parsed : (count : ℕ) × (analysis.validate_resulting_site files ≡ some count)
  pub not_reserved :
      (path : Text) (bytes : Bytes)
      → Map.get path files ≡ some bytes
      → reserved_path crates path ≡ false
  pub distinct :
      (p q : Text) (b c : Bytes)
      → Map.get p files ≡ some b
      → Map.get q files ≡ some c
      → folded_path crates p ≡ folded_path crates q
      → p ≡ q
  pub references_inside :
      (path : Text) (bytes : Bytes)
      → Map.get path files ≡ some bytes
      → HasReferencesInside crates files path bytes

pub validate_result-IsPublishable :
    (crates : Crates) (analysis : StaticAnalysis) (files : Files) (checked : ℕ × List Text)
    → validate_result crates analysis files ≡ ok checked
    → IsPublishable crates analysis files
unfolding validate_result validate_final_case_collisions validate_export_deny_list
    validate_local_references
validate_result-IsPublishable crates analysis files checked h =
    let (new, h₁) =
      seq-eq-ok (reject_if (not (all_new crates (Map.keys files) [])) operation_conflict) _ h in
    let (count, syntax, h₂) = bind-eq-ok (validate_static_syntax analysis files) _ h₁ in
    let (entry, h₃) =
      seq-eq-ok (reject_if (not (Map.contains_key (codes "index.html") files)) missing_entry_point)
        _ h₂ in
    let (sources, local, h₄) =
      bind-eq-ok (validate_local_references_from crates files files []) _ h₃ in
    let (deny, h₅) =
      seq-eq-ok (reject_if (any (reserved_path crates) (Map.keys files)) reserved) _ h₄ in
    let all_distinct = passes_of_reject _ _ new in
    let has_entry = passes_of_reject _ _ entry in
    record {
      entry_point = ground arith;
      parsed = (count, or_fail-some (analysis.validate_resulting_site files) _ count syntax);
      not_reserved = λ path bytes there.
          any-contains (reserved_path crates) (Map.keys files) path (passes_of_reject _ _ deny)
            (contains-keys files path bytes there);
      distinct = λ p q b c p-there q-there same.
          all_new-distinct crates (Map.keys files) [] p q (ground arith)
            (contains-keys files p b p-there) (contains-keys files q c q-there) same;
      references_inside = local_references_inside crates files files [] sources local;
    }
