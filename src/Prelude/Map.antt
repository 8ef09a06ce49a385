-- ===== src/Prelude/Map.antt =====
-- `BTreeMap<String, V>`: the entries in the order of their keys. Texts are ordered by their
-- characters, which is the order of their UTF-8 bytes.
use synapsegit_lp_studio.Prelude.{
  ==_iff, Bool, List, Option, Ordering, [], ap, arith, compare, false, if◌then◌else◌, is_some,
  length, list_eq, nat_eq, none, refl, some, suc, true, ◌==◌, ◌∷◌, ◌≡◌,
}
use synapsegit_lp_studio.Prelude.Text.{Text}

-- whether a text is below another
unfoldable pub text_lt : Text → Text → Bool
text_lt [] [] = false
text_lt [] (d ∷ t) = true
text_lt (c ∷ s) [] = false
text_lt (c ∷ s) (d ∷ t) =
    let rest = text_lt s t in
    elim (compare c d) [ Ordering.lt ↦ true | Ordering.eq ↦ rest | Ordering.gt ↦ false ]

abbrev pub BTreeMap {ℓ} : Type ℓ → Type ℓ
BTreeMap V = List (Text × V)

module _ {ℓ} {V : Type ℓ} where
  unfoldable pub get : Text → BTreeMap V → Option V
  get k [] = none
  get k ((j, v) ∷ m) = if j == k then some v else get k m

  -- the new map, without the value that was there
  unfoldable pub insert : Text → V → BTreeMap V → BTreeMap V
  insert k v [] = (k, v) ∷ []
  insert k v ((j, w) ∷ m) =
      let rest = insert k v m in
      if j == k then (k, v) ∷ m else if text_lt k j then (k, v) ∷ (j, w) ∷ m else (j, w) ∷ rest

  unfoldable pub remove : Text → BTreeMap V → BTreeMap V
  remove k [] = []
  remove k ((j, w) ∷ m) = let rest = remove k m in if j == k then rest else (j, w) ∷ rest

  abbrev pub keys : BTreeMap V → List Text
  keys [] = []
  keys ((j, v) ∷ m) = j ∷ keys m

  pub length-keys : (m : BTreeMap V) → length (keys m) ≡ length m
  length-keys [] = refl
  length-keys (e ∷ m) = ap suc (length-keys m)

  abbrev pub contains_key : Text → BTreeMap V → Bool
  contains_key k m = is_some (get k m)

  pub get-insert :
      (k j : Text) (v : V) (m : BTreeMap V)
      → get j (insert k v m) ≡ (if k == j then some v else get j m)
  unfolding get insert
  get-insert k j v [] = refl
  get-insert k j v ((i, w) ∷ m) =
      ground (arith, ==_iff k j, ==_iff i k, ==_iff i j, get-insert k j v m)

  pub get-remove :
      (k j : Text) (m : BTreeMap V) → get j (remove k m) ≡ (if k == j then none else get j m)
  unfolding get remove
  get-remove k j [] = ground arith
  get-remove k j ((i, w) ∷ m) = ground (arith, ==_iff k j, ==_iff i k, ==_iff i j, get-remove k j m)

-- `BTreeSet<String>`
abbrev pub BTreeSet : Type 0
BTreeSet = BTreeMap (Unit {0})
