-- ===== src/ChangeSet/Graph/Claims.antt =====
-- apps/local-server/src/change_set.rs: what `validate_operation_graph` proves of the claims.
use synapsegit_lp_studio.ChangeSet.Types.{ChangeOperationV1, Crates}
use synapsegit_lp_studio.ChangeSet.Path.{folded_path}
use synapsegit_lp_studio.ChangeSet.Graph.{operation_claims, own, own_all, validate_operation_graph}
use synapsegit_lp_studio.Prelude.{
  ==_iff, Bool, List, Option-cases, [], any, arith, false, if◌then◌else◌, inl, inr, list_eq, nat_eq,
  none, ok, refl, some, true, ℕ, ◌+◌, ◌<◌, ◌==◌, ◌∷◌, ◌≡◌, ◌⊎◌,
}
use synapsegit_lp_studio.Prelude.Text.{Text}
use synapsegit_lp_studio.Prelude.Map.{BTreeMap, get-insert}
use synapsegit_lp_studio.Prelude.Map

-- whether an operation claims a path whose folded form is `k`
abbrev pub claims : Crates → Text → ChangeOperationV1 → Bool
claims crates k operation = any (λ path. folded_path crates path == k) (operation_claims operation)

-- No later operation claims what an earlier one claims.
abbrev pub Separate : Crates → List ChangeOperationV1 → Type 0
Separate crates [] = Unit
Separate crates (operation ∷ operations) =
    ((k : Text) → claims crates k operation ≡ true → any (claims crates k) operations ≡ false)
    × Separate crates operations

module _ (crates : Crates) (index : ℕ) (k : Text) where
  get-own :
      (paths : List Text) (owners owners' : BTreeMap ℕ)
      → own crates index paths owners ≡ some owners'
      → Map.get k owners' ≡ (
          if any (λ path. folded_path crates path == k) paths then some index else Map.get k owners)
  unfolding own any
  get-own [] owners owners' h = ground arith
  get-own (path ∷ paths) owners owners' h =
      let owners₁ = Map.insert (folded_path crates path) index owners in
      ground (
        arith,
        get-own paths owners₁ owners',
        get-insert (folded_path crates path) k index owners,
        ==_iff (folded_path crates path) k,
      )

  own_free :
      (paths : List Text) (owners owners' : BTreeMap ℕ)
      → own crates index paths owners ≡ some owners'
      → any (λ path. folded_path crates path == k) paths ≡ true
      → (Map.get k owners ≡ none) ⊎ (Map.get k owners ≡ some index)
  unfolding own any
  own_free [] owners owners' h c = cc
  own_free (path ∷ paths) owners owners' h c =
      let owners₁ = Map.insert (folded_path crates path) index owners in
      elim (Option-cases (Map.get k owners)) [
        | inl e ↦ inl e
        | inr (owner, e) ↦ inr (
            ground (
              arith,
              own_free paths owners₁ owners',
              get-insert (folded_path crates path) k index owners,
              ==_iff (folded_path crates path) k,
            ))
      ]

-- The owners recorded so far have smaller indices.
abbrev Below : ℕ → BTreeMap ℕ → Type 0
Below index owners = (k : Text) (j : ℕ) → Map.get k owners ≡ some j → j < index

module _ (crates : Crates) where
  own_all-Separate :
      (operations : List ChangeOperationV1) (index : ℕ) (owners : BTreeMap ℕ)
      → Below index owners
      → own_all crates index operations owners ≡ ok tt
      → Separate crates operations
        × ((k : Text) (j : ℕ)
            → Map.get k owners ≡ some j
            → any (claims crates k) operations ≡ false)
  unfolding own_all any
  own_all-Separate [] index owners below h = (tt, λ k j e. refl)
  own_all-Separate (operation ∷ operations) index owners below h =
      elim (Option-cases (own crates index (operation_claims operation) owners)) [
        | inl e ↦ absurd (ground arith)
        | inr (owners', e) ↦
            let after =
              λ (k : Text). get-own crates index k (operation_claims operation) owners owners' e in
            let free =
              λ (k : Text). own_free crates index k (operation_claims operation) owners owners' e in
            let rest =
              own_all-Separate operations (index + 1) owners'
                (λ k j f. ground (arith, below k j, after k)) (ground arith) in
            (
              (λ k c. rest.1 k index (ground (arith, after k)), rest.0),
              λ k j f. ground (arith, below k j f, free k, after k, rest.1 k j),
            )
      ]

  -- An operation list that passes `validate_operation_graph` has no two operations that claim
  -- one path, up to case folding.
  pub validate_operation_graph-Separate :
      (operations : List ChangeOperationV1)
      → validate_operation_graph crates operations ≡ ok tt
      → Separate crates operations
  unfolding validate_operation_graph
  validate_operation_graph-Separate operations h =
      (own_all-Separate operations 0 [] (λ k j e. unfold Map.get in cc) (ground arith)).0
