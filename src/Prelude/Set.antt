-- ===== src/Prelude/Set.antt =====
-- `HashSet`, of which only membership is asked: its order is never seen.
use synapsegit_lp_studio.Prelude.{
  ==_iff, Bool, PartialEq, List, [], arith, false, if◌then◌else◌, keep, list_eq, nat_eq, not, ◌&&◌,
  ◌==◌, ◌||◌, ◌∷◌, ◌≡◌,
}

abbrev pub HashSet {ℓ} : Type ℓ → Type ℓ
HashSet A = List A

module _ {ℓ} {A : Type ℓ} ⦃e : PartialEq A⦄ where
  unfoldable pub contains : A → HashSet A → Bool
  contains a [] = false
  contains a (x ∷ xs) = x == a || contains a xs

  unfoldable pub insert : A → HashSet A → HashSet A
  insert a s = if contains a s then s else a ∷ s

  unfoldable pub remove : A → HashSet A → HashSet A
  remove a [] = []
  remove a (x ∷ xs) = let rest = remove a xs in if x == a then rest else x ∷ rest

  pub contains-insert :
      (a b : A) (s : HashSet A) → contains b (insert a s) ≡ (a == b || contains b s)
  unfolding contains insert
  contains-insert a b s = ground (arith, ==_iff a b)

  pub contains-remove :
      (a b : A) (s : HashSet A) → contains b (remove a s) ≡ (not (a == b) && contains b s)
  unfolding contains remove
  contains-remove a b [] = ground arith
  contains-remove a b (x ∷ xs) =
      ground (arith, ==_iff x a, ==_iff x b, ==_iff a b, contains-remove a b xs)

  pub contains-keep :
      (p : A → Bool) (b : A) (s : HashSet A) → contains b (keep p s) ≡ (p b && contains b s)
  unfolding contains keep
  contains-keep p b [] = ground arith
  contains-keep p b (x ∷ xs) = ground (arith, ==_iff x b, contains-keep p b xs)
