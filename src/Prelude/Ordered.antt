-- ===== src/Prelude/Ordered.antt =====
-- `BTreeSet` of values that are ordered by a key of several texts, as `derive(Ord)` does for a
-- struct of strings: the items in the order of their keys. And `sort` of such values.
use synapsegit_lp_studio.Prelude.{
  ==_iff, Bool, List, [], any, arith, false, if◌then◌else◌, keep, list_eq, nat_eq, not, pair_eq,
  refl, true, ◌&&◌, ◌==◌, ◌||◌, ◌∷◌, ◌≡◌,
}
use synapsegit_lp_studio.Prelude.Text.{Text, is_empty}
use synapsegit_lp_studio.Prelude.Map

-- whether a list of texts is below another
unfoldable pub texts_lt : List Text → List Text → Bool
unfolding Map.text_lt
texts_lt [] [] = false
texts_lt [] (d ∷ t) = true
texts_lt (c ∷ s) [] = false
texts_lt (c ∷ s) (d ∷ t) = let rest = texts_lt s t in if c == d then rest else Map.text_lt c d

module _ {A : Type 0} (key : A → List Text) where
  -- `BTreeSet::insert`
  unfoldable pub insert_by : A → List A → List A
  insert_by x [] = x ∷ []
  insert_by x (y ∷ s) =
      let rest = insert_by x s in
      if key y == key x then y ∷ s else if texts_lt (key x) (key y) then x ∷ y ∷ s else y ∷ rest

  unfoldable pub collect_by : List A → List A → List A
  collect_by [] s = s
  collect_by (x ∷ xs) s = collect_by xs (insert_by x s)

  unfoldable pub contains_by : A → List A → Bool
  contains_by x s = any (λ y. key y == key x) s

  -- `BTreeSet::difference`
  unfoldable pub difference_by : List A → List A → List A
  difference_by s t = keep (λ x. not (contains_by x t)) s

  -- `sort`, which keeps what is there twice
  unfoldable pub sort_insert : A → List A → List A
  sort_insert x [] = x ∷ []
  sort_insert x (y ∷ s) =
      let rest = sort_insert x s in if texts_lt (key y) (key x) then y ∷ rest else x ∷ y ∷ s

  unfoldable pub sort_by : List A → List A
  sort_by [] = []
  sort_by (x ∷ xs) = sort_insert x (sort_by xs)

  pub contains-insert_by :
      (x z : A) (s : List A)
      → any (λ y. key y == key z) (insert_by x s) ≡ (key x == key z || any (λ y. key y == key z) s)
  unfolding any insert_by
  contains-insert_by x z [] = refl
  contains-insert_by x z (y ∷ s) = ground (
    arith,
    ==_iff (key y) (key x),
    ==_iff (key x) (key z),
    ==_iff (key y) (key z),
    contains-insert_by x z s,
  )

  pub contains-collect_by :
      (xs : List A) (z : A) (s : List A)
      → contains_by z (collect_by xs s) ≡ (contains_by z xs || contains_by z s)
  unfolding any collect_by contains_by
  contains-collect_by [] z s = refl
  contains-collect_by (x ∷ xs) z s =
      ground (arith, contains-collect_by xs z (insert_by x s), contains-insert_by x z s)

  -- A set that is collected has the items of the list.
  pub contains-collect_new :
      (xs : List A) (z : A) → contains_by z (collect_by xs []) ≡ contains_by z xs
  unfolding any contains_by
  contains-collect_new xs z = ground (arith, contains-collect_by xs z [])

  is_empty-insert_by : (x : A) (s : List A) → is_empty (insert_by x s) ≡ false
  unfolding insert_by
  is_empty-insert_by x [] = refl
  is_empty-insert_by x (y ∷ s) = ground arith

  pub is_empty-collect_by :
      (xs s : List A) → is_empty (collect_by xs s) ≡ (is_empty xs && is_empty s)
  unfolding collect_by
  is_empty-collect_by [] s = refl
  is_empty-collect_by (x ∷ xs) s =
      ground (arith, is_empty-collect_by xs (insert_by x s), is_empty-insert_by x s)
