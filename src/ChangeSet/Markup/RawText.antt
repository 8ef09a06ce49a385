-- ===== src/ChangeSet/Markup/RawText.antt =====
-- apps/local-server/src/change_set.rs: the scanner's steps to a `<`, to the `>` of a tag, and to the
-- closing tag of a raw text element.
use synapsegit_lp_studio.ChangeSet.Markup.{
  closes, ends_tag, find_lower, joined_before, name_may_end, next_quote, raw_text_element_bounds,
  tag_end,
}
use synapsegit_lp_studio.Prelude.{
  Bool-cases, Option, Option-cases, [], arith, if◌then◌else◌, inl, inr, length, none, some, suc,
  sym, zero, ℕ, ◌++◌, ◌<◌, ◌∷◌, ◌≡◌, ◌≤◌,
}
use synapsegit_lp_studio.Prelude.Text.{
  Text, codes, drop, find_text, prefixed, starts_with, take, to_ascii_lowercase, trim,
}

pub length-drop-le : (n : ℕ) (t : Text) → length (drop n t) ≤ length t
unfolding drop
length-drop-le zero t = omega arith
length-drop-le (suc n) [] = omega arith
length-drop-le (suc n) (c ∷ t) = omega (arith, length-drop-le n t)

pub length-drop-lt : (n : ℕ) (t : Text) → 1 ≤ length t → length (drop (suc n) t) < length t
unfolding drop
length-drop-lt n [] h = absurd (omega arith)
length-drop-lt n (c ∷ t) h = omega (arith, length-drop-le n t)

pub prefixed-some :
    (c : ℕ) (o : Option (Text × Text)) (before rest : Text)
    → prefixed c o ≡ some (before, rest)
    → (earlier : Text) × (o ≡ some (earlier, rest))
prefixed-some c none before rest h = cc
prefixed-some c (some (a, b)) before rest h = (a, ground arith)

-- What is found is a part of the text, and is not empty if the pattern is not.
pub find_text-length :
    (p : ℕ) (ps t before at : Text)
    → find_text (p ∷ ps) t ≡ some (before, at)
    → (1 ≤ length at) × (length at ≤ length t)
unfolding find_text starts_with
find_text-length p ps [] before at h = cc
find_text-length p ps (c ∷ t) before at h = elim (Bool-cases (starts_with (c ∷ t) (p ∷ ps))) [
  | inl here ↦ let at_is : at ≡ c ∷ t = ground arith in rw at_is (omega arith, omega arith)
  | inr later ↦
      let (earlier, e) = prefixed-some c (find_text (p ∷ ps) t) before at (ground arith) in
      let rest = find_text-length p ps t earlier at e in (rest.0, omega (arith, rest.1))
]

pub tag_end-length :
    (quote : Option ℕ) (t body rest : Text)
    → tag_end quote t ≡ some (body, rest)
    → length rest < length t
unfolding tag_end
tag_end-length quote [] body rest h = cc
tag_end-length quote (c ∷ t) body rest h = elim (Bool-cases (ends_tag quote c)) [
  | inl here ↦ let rest_is : rest ≡ t = ground arith in rw rest_is (omega arith)
  | inr later ↦
      let (earlier, e) =
        prefixed-some c (tag_end (next_quote quote c) t) body rest (ground arith) in
      omega (arith, tag_end-length (next_quote quote c) t earlier rest e)
]

pub find_lower-length :
    (p : ℕ) (ps t before at : Text)
    → find_lower (p ∷ ps) t ≡ some (before, at)
    → (1 ≤ length at) × (length at ≤ length t)
unfolding find_lower starts_with
find_lower-length p ps [] before at h = cc
find_lower-length p ps (c ∷ t) before at h =
    elim (Bool-cases (starts_with (to_ascii_lowercase (c ∷ t)) (p ∷ ps))) [
      | inl here ↦ let at_is : at ≡ c ∷ t = ground arith in rw at_is (omega arith, omega arith)
      | inr later ↦
          let (earlier, e) = prefixed-some c (find_lower (p ∷ ps) t) before at (ground arith) in
          let rest = find_lower-length p ps t earlier at e in (rest.0, omega (arith, rest.1))
    ]

joined_before-some :
    (before : Text) (o : Option (Text × Text)) (inner next : Text)
    → joined_before before o ≡ some (inner, next)
    → (later : Text) × (o ≡ some (later, next))
joined_before-some before none inner next h = cc
joined_before-some before (some (a, b)) inner next h = (a, ground arith)

-- The end of an element whose closing prefix is at a place.
abbrev pub close_at : Text → Text → Text → Option (Text × Text)
close_at tag_name before at = elim (tag_end none (drop 1 at)) [
  | none ↦ none
  | some (close_body, next) ↦
      if closes (codes "/" ++ tag_name) (trim close_body) then some (before, next) else none
]

close_at-length :
    (tag_name before at inner next : Text)
    → close_at tag_name before at ≡ some (inner, next)
    → length next ≤ length at
close_at-length tag_name before at inner next h = elim (Option-cases (tag_end none (drop 1 at))) [
  | inl e ↦ absurd (ground arith)
  | inr ((close_body, rest), e) ↦
      let short = tag_end-length none (drop 1 at) close_body rest e in
      let dropped = length-drop-le 1 at in
      let rest_is : rest ≡ next = ground arith in rw (sym rest_is) (omega arith)
]

pub raw_text_element_bounds-length :
    (fuel : ℕ) (tag_name tail inner next : Text)
    → raw_text_element_bounds fuel tag_name tail ≡ some (inner, next)
    → length next ≤ length tail
unfolding raw_text_element_bounds
raw_text_element_bounds-length zero tag_name tail inner next h = cc
raw_text_element_bounds-length (suc fuel) tag_name tail inner next h =
    elim (Option-cases (find_lower (codes "</" ++ tag_name) tail)) [
      | inl e ↦ absurd (ground arith)
      | inr ((before, at), e) ↦
          let size = find_lower-length b'<' (b'/' ∷ tag_name) tail before at e in
          let behind : Text = drop (length (codes "</" ++ tag_name)) at in
          elim (Bool-cases (name_may_end behind)) [
            | inl may ↦
                let short = close_at-length tag_name before at inner next (ground arith) in
                omega (arith, size.1)
            | inr more ↦
                let (later, f) =
                  joined_before-some (before ++ take (length (codes "</" ++ tag_name)) at)
                    (raw_text_element_bounds fuel tag_name behind) inner next (ground arith) in
                let short = raw_text_element_bounds-length fuel tag_name behind later next f in
                let dropped = length-drop-le (length (codes "</" ++ tag_name)) at in
                omega (arith, size.1)
          ]
    ]
