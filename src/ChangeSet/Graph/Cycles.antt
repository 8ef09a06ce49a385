-- ===== src/ChangeSet/Graph/Cycles.antt =====
-- apps/local-server/src/change_set.rs: the cycles of the renames, and the search for them.
use synapsegit_lp_studio.ChangeSet.Graph.{any_revisits, revisits, contains_rename_cycle}
use synapsegit_lp_studio.Prelude.{
  ==_iff, Bool, Bool-cases, List, Option, Option-cases, [], any, ap, arith, dec_lt, false, inl, inr,
  keep, length, length-keep-le, list_eq, nat_eq, none, not, pair_eq, refl, some, suc, sym, true,
  zero, ℕ, ◌+◌, ◌-◌, ◌<◌, ◌==◌, ◌↔◌, ◌∙◌, ◌∷◌, ◌≡◌, ◌≢◌, ◌≤◌,
}
use synapsegit_lp_studio.Prelude.Text.{Text}
use synapsegit_lp_studio.Prelude.Map.{BTreeMap, length-keys}
use synapsegit_lp_studio.Prelude.Set.{HashSet, contains-insert}
use synapsegit_lp_studio.Prelude.Map
use synapsegit_lp_studio.Prelude.Set

-- where `n` edges lead
unfoldable pub follow : ℕ → BTreeMap Text → Text → Option Text
follow zero edges cursor = some cursor
follow (suc n) edges cursor = elim (Map.get cursor edges) [
  | none ↦ none
  | some next ↦ follow n edges next
]

-- Some path comes back to itself.
abbrev pub IsCyclic : BTreeMap Text → Type 0
IsCyclic edges = (start : Text) × (n : ℕ) × (follow (suc n) edges start ≡ some start)

abbrev fresh : HashSet Text → Text → Bool
fresh visited k = not (Set.contains k visited)

abbrev unvisited : BTreeMap Text → HashSet Text → ℕ
unvisited edges visited = length (keep (fresh visited) (Map.keys edges))

key_of_get :
    (edges : BTreeMap Text) (k next : Text)
    → Map.get k edges ≡ some next
    → any (λ j. j == k) (Map.keys edges) ≡ true
unfolding Map.get any
key_of_get [] k next h = cc
key_of_get ((j, v) ∷ edges) k next h = ground (arith, key_of_get edges k next)

module _ (visited : HashSet Text) (c : Text) where
  fewer_or_same :
      (ks : List Text)
      → length (keep (fresh (Set.insert c visited)) ks) ≤ length (keep (fresh visited) ks)
  unfolding keep
  fewer_or_same [] = omega arith
  fewer_or_same (k ∷ ks) = ground (arith, fewer_or_same ks, contains-insert c k visited)

  fewer :
      (ks : List Text)
      → Set.contains c visited ≡ false
      → any (λ j. j == c) ks ≡ true
      → length (keep (fresh (Set.insert c visited)) ks) < length (keep (fresh visited) ks)
  unfolding keep any
  fewer [] new found = cc
  fewer (k ∷ ks) new found =
      ground
        (arith, fewer ks new, fewer_or_same ks, contains-insert c k visited, ==_iff k c, ==_iff c k)

module _ (edges : BTreeMap Text) where
  revisits-total :
      (fuel : ℕ) (visited : HashSet Text) (cursor : Text)
      → unvisited edges visited < fuel
      → (b : Bool) × (revisits fuel edges visited cursor ≡ some b)
  unfolding revisits
  revisits-total zero visited cursor h = absurd (omega arith)
  revisits-total (suc fuel) visited cursor h = elim (Option-cases (Map.get cursor edges)) [
    | inl e ↦ (false, ground arith)
    | inr (next, e) ↦ elim (Bool-cases (Set.contains cursor visited)) [
      | inl old ↦ (true, ground arith)
      | inr new ↦
          let (b, rest) = revisits-total fuel (Set.insert cursor visited) next (
            omega (
              arith,
              fewer visited cursor (Map.keys edges) new (key_of_get edges cursor next e),
            )) in
          (b, ground arith)
    ]
  ]

  any_revisits-total :
      (starts : List Text) → (b : Bool) × (any_revisits (length edges + 1) edges starts ≡ some b)
  unfolding any_revisits
  any_revisits-total [] = (false, refl)
  any_revisits-total (start ∷ starts) =
      let (b, first) =
        revisits-total (length edges + 1) [] start
          (omega (arith, length-keep-le {0} (fresh []) (Map.keys edges), length-keys {0} edges)) in
      let (b', rest) = any_revisits-total starts in
      elim (Bool-cases b) [ inl found ↦ (true, ground arith) | inr none_here ↦ (b', ground arith) ]

  follow-next :
      (n : ℕ) (v c d : Text)
      → follow n edges v ≡ some c
      → Map.get c edges ≡ some d
      → follow (suc n) edges v ≡ some d
  unfolding follow
  follow-next zero v c d h e = ground arith
  follow-next (suc n) v c d h e = elim (Option-cases (Map.get v edges)) [
    | inl f ↦ absurd (ground arith)
    | inr (w, f) ↦ ground (arith, follow-next n w c d)
  ]

  -- A revisit closes a cycle.
  revisits-IsCyclic :
      (fuel : ℕ) (visited : HashSet Text) (cursor : Text)
      → ((v : Text)
          → Set.contains v visited ≡ true
          → (n : ℕ) × (follow (suc n) edges v ≡ some cursor))
      → revisits fuel edges visited cursor ≡ some true
      → IsCyclic edges
  unfolding revisits
  revisits-IsCyclic zero visited cursor back h = absurd (ground arith)
  revisits-IsCyclic (suc fuel) visited cursor back h = elim (Option-cases (Map.get cursor edges)) [
    | inl e ↦ absurd (ground arith)
    | inr (next, e) ↦ elim (Bool-cases (Set.contains cursor visited)) [
      | inl old ↦ let (n, round) = back cursor old in (cursor, n, round)
      | inr new ↦
          revisits-IsCyclic fuel (Set.insert cursor visited) next
            (λ v m. elim (Bool-cases (cursor == v)) [
              | inl here ↦ (0, rw (← (==_iff cursor v).0 here) (unfold follow in ground arith))
              | inr there ↦
                  let (n, round) = back v (ground (arith, contains-insert cursor v visited)) in
                  (suc n, follow-next (suc n) v cursor next round e)
            ])
            (ground arith)
    ]
  ]

  -- A walk that ends without a revisit ends.
  revisits-ends :
      (fuel : ℕ) (visited : HashSet Text) (cursor : Text)
      → revisits fuel edges visited cursor ≡ some false
      → (n : ℕ) × (follow n edges cursor ≡ none)
  unfolding revisits follow
  revisits-ends zero visited cursor h = absurd (ground arith)
  revisits-ends (suc fuel) visited cursor h = elim (Option-cases (Map.get cursor edges)) [
    | inl e ↦ (1, ground arith)
    | inr (next, e) ↦ elim (Bool-cases (Set.contains cursor visited)) [
      | inl old ↦ absurd (ground arith)
      | inr new ↦
          let (n, rest) = revisits-ends fuel (Set.insert cursor visited) next (ground arith) in
          (suc n, ground arith)
    ]
  ]

  any_revisits-IsCyclic :
      (fuel : ℕ) (starts : List Text) → any_revisits fuel edges starts ≡ some true → IsCyclic edges
  unfolding any_revisits
  any_revisits-IsCyclic fuel [] h = absurd (ground arith)
  any_revisits-IsCyclic fuel (start ∷ starts) h =
      elim (Option-cases (revisits fuel edges [] start)) [
        | inl e ↦ absurd (ground arith)
        | inr (found, e) ↦ elim (Bool-cases found) [
          | inl yes_here ↦
              revisits-IsCyclic fuel [] start (λ v m. unfold Set.contains in cc) (ground arith)
          | inr not_here ↦ any_revisits-IsCyclic fuel starts (ground arith)
        ]
      ]

  any_revisits-ends :
      (fuel : ℕ) (starts : List Text)
      → any_revisits fuel edges starts ≡ some false
      → (start : Text) → any (λ k. k == start) starts ≡ true
      → (n : ℕ) × (follow n edges start ≡ none)
  unfolding any_revisits any
  any_revisits-ends fuel [] h start m = absurd (ground arith)
  any_revisits-ends fuel (k ∷ starts) h start m = elim (Bool-cases (k == start)) [
    | inl here ↦ rw (← (==_iff k start).0 here) (revisits-ends fuel [] k (ground arith))
    | inr there ↦ any_revisits-ends fuel starts (ground arith) start (ground arith)
  ]

  -- A path that comes back never ends.
  follow_past :
      (a b : ℕ) (c d : Text) → follow a edges c ≡ some d → follow (a + b) edges c ≡ follow b edges d
  unfolding follow
  follow_past zero b c d h = let e : 0 + b ≡ b = omega arith in rw e (ground arith)
  follow_past (suc a) b c d h =
      let e : suc a + b ≡ suc (a + b) = omega arith in
      elim (Option-cases (Map.get c edges)) [
        | inl f ↦ absurd (ground arith)
        | inr (next, f) ↦ rw (e, f, follow) (follow_past a b next d (ground arith))
      ]

  follow_longer : (a b : ℕ) (c : Text) → follow a edges c ≡ none → follow (a + b) edges c ≡ none
  unfolding follow
  follow_longer zero b c h = absurd (ground arith)
  follow_longer (suc a) b c h =
      let e : suc a + b ≡ suc (a + b) = omega arith in
      elim (Option-cases (Map.get c edges)) [
        | inl f ↦ rw (e, f, follow)
        | inr (next, f) ↦ rw (e, f, follow) (follow_longer a b next (ground arith))
      ]

  cycle_goes_on :
      (bound n m : ℕ) (c : Text)
      → m < bound
      → follow (suc n) edges c ≡ some c
      → follow m edges c ≢ none
  cycle_goes_on zero n m c lt h e = absurd (omega arith)
  cycle_goes_on (suc bound) n m c lt h e = elim (dec_lt n m) [
    | yes past ↦
        let split_m : suc n + (m - suc n) ≡ m = omega arith in
        cycle_goes_on bound n (m - suc n) c (omega arith) h
          (sym (follow_past (suc n) (m - suc n) c c h) ∙ rw split_m e)
    | no before ↦
        let split_n : m + (suc n - m) ≡ suc n = omega arith in
        cc (h, rw split_n at (follow_longer m (suc n - m) c e))
  ]

step_of_follow :
    (edges : BTreeMap Text) (n : ℕ) (c d : Text)
    → follow (suc n) edges c ≡ some d
    → (next : Text) × (Map.get c edges ≡ some next)
unfolding follow
step_of_follow edges n c d h = elim (Option-cases (Map.get c edges)) [
  | inl f ↦ absurd (ground arith)
  | inr found ↦ found
]

found_of_cyclic :
    (edges : BTreeMap Text) (b : Bool)
    → any_revisits (length edges + 1) edges (Map.keys edges) ≡ some b
    → IsCyclic edges
    → b ≡ true
found_of_cyclic edges true e cyclic = refl
found_of_cyclic edges false e (start, n, round) =
    let (next, f) = step_of_follow edges n start start round in
    let (m, ended) =
      any_revisits-ends edges _ (Map.keys edges) e start (key_of_get edges start next f) in
    absurd (cycle_goes_on edges (suc m) n m start (omega arith) round ended)

-- The search for a rename cycle ends, whatever the edges, with its fuel of one more than their
-- number, and finds a cycle exactly when some path comes back to itself along the edges.
pub contains_rename_cycle_lem :
    (edges : BTreeMap Text)
    → (b : Bool) × (contains_rename_cycle edges ≡ some b) × ((b ≡ true) ↔ IsCyclic edges)
unfolding contains_rename_cycle
contains_rename_cycle_lem edges =
    let (b, e) = any_revisits-total edges (Map.keys edges) in
    (
      b,
      e,
      (
        λ t. any_revisits-IsCyclic edges _ (Map.keys edges) (e ∙ ap some t),
        λ cyclic. found_of_cyclic edges b e cyclic,
      ),
    )
