-- ===== src/ChangeSet/Graph.antt =====
-- apps/local-server/src/change_set.rs: `validate_operation_graph`: two operations that claim one path,
-- or renames that make a cycle, both up to case folding, are refused.
pub mod Claims
pub mod Cycles
use synapsegit_lp_studio.Prelude.Map
use synapsegit_lp_studio.Prelude.Set
use synapsegit_lp_studio.ChangeSet.Types.{
  ChangeOperationV1, Checked, Crates, create_text, delete, operation_conflict, rename, rename_cycle,
  replace_text,
}
use synapsegit_lp_studio.ChangeSet.Path.{folded_path}
use synapsegit_lp_studio.Prelude.{
  Bool, List, Option, [], err, false, if◌then◌else◌, length, list_eq, nat_eq, none, ok, pair_eq,
  some, suc, true, zero, ℕ, ◌+◌, ◌==◌, ◌∷◌,
}
use synapsegit_lp_studio.Prelude.Text.{Text}
use synapsegit_lp_studio.Prelude.Map.{BTreeMap}
use synapsegit_lp_studio.Prelude.Set.{HashSet}

unfoldable pub operation_claims : ChangeOperationV1 → List Text
operation_claims (create_text path media_type content) = path ∷ []
operation_claims (replace_text path expected_sha256 media_type content) = path ∷ []
operation_claims (delete path expected_sha256) = path ∷ []
operation_claims (rename from to expected_sha256) = from ∷ to ∷ []

-- Collected in order: a later edge from the same path replaces an earlier one.
unfoldable pub rename_edges : Crates → List ChangeOperationV1 → BTreeMap Text → BTreeMap Text
rename_edges crates [] edges = edges
rename_edges crates (rename from to expected_sha256 ∷ operations) edges =
    rename_edges crates operations
      (Map.insert (folded_path crates from) (folded_path crates to) edges)
rename_edges crates (_ ∷ operations) edges = rename_edges crates operations edges

-- The `while` of `contains_rename_cycle`, on fuel; `none` means that the fuel ran out.
unfoldable pub revisits : ℕ → BTreeMap Text → HashSet Text → Text → Option Bool
revisits zero edges visited cursor = none
revisits (suc fuel) edges visited cursor = elim (Map.get cursor edges) [
  | none ↦ some false
  | some next ↦ elim (Set.contains cursor visited) [
    | true ↦ some true
    | false ↦ revisits fuel edges (Set.insert cursor visited) next
  ]
]

-- The `for` over the starts.
unfoldable pub any_revisits : ℕ → BTreeMap Text → List Text → Option Bool
unfolding revisits
any_revisits fuel edges [] = some false
any_revisits fuel edges (start ∷ starts) = elim (revisits fuel edges [] start) [
  | none ↦ none
  | some true ↦ some true
  | some false ↦ any_revisits fuel edges starts
]

unfoldable pub contains_rename_cycle : BTreeMap Text → Option Bool
unfolding any_revisits
contains_rename_cycle edges = any_revisits (length edges + 1) edges (Map.keys edges)

-- `owners.insert(folded, index)`, for each claim of one operation; `none` is a conflict.
unfoldable pub own : Crates → ℕ → List Text → BTreeMap ℕ → Option (BTreeMap ℕ)
own crates index [] owners = some owners
own crates index (path ∷ paths) owners =
    let rest = own crates index paths (Map.insert (folded_path crates path) index owners) in
    elim (Map.get (folded_path crates path) owners) [
      | none ↦ rest
      | some owner ↦ if owner == index then rest else none
    ]

unfoldable pub own_all : Crates → ℕ → List ChangeOperationV1 → BTreeMap ℕ → Checked Unit
unfolding own operation_claims
own_all crates index [] owners = ok tt
own_all crates index (operation ∷ operations) owners =
    elim (own crates index (operation_claims operation) owners) [
      | none ↦ err operation_conflict
      | some owners' ↦ own_all crates (index + 1) operations owners'
    ]

-- The fuel is enough, so the last case is not met.
unfoldable pub validate_operation_graph : Crates → List ChangeOperationV1 → Checked Unit
unfolding rename_edges contains_rename_cycle own_all
validate_operation_graph crates operations =
    elim (contains_rename_cycle (rename_edges crates operations [])) [
      | some true ↦ err rename_cycle
      | some false ↦ own_all crates 0 operations []
      | none ↦ err rename_cycle
    ]
