-- ===== src/ChangeSet/Markup/FirstEnd.antt =====
-- apps/local-server/src/change_set.rs: the search for the closing tag of a raw text element, against a
-- search that looks at every place.
use mathlib.Core.List.{append-nil, append_assoc}
use synapsegit_lp_studio.ChangeSet.Markup.{
  closes, find_lower, joined_before, name_may_end, tag_end, is_tag_name_byte,
  raw_text_element_bounds,
}
use synapsegit_lp_studio.ChangeSet.Markup.RawText.{close_at, find_lower-length, length-drop-lt}
use synapsegit_lp_studio.Prelude.{
  ==_iff, Bool, Bool-cases, Option, Option-cases, [], all, ap, arith, false, if◌then◌else◌, inl,
  inr, length, list_eq, nat_eq, none, not, refl, some, suc, sym, true, zero, ℕ, ◌&&◌, ◌++◌, ◌+◌,
  ◌<◌, ◌==◌, ◌∙◌, ◌∷◌, ◌≡◌,
}
use synapsegit_lp_studio.Prelude.Text.{
  Text, codes, drop, is_ascii_alphanumeric, prefixed, starts_with, take, to_ascii_lower,
  to_ascii_lowercase, trim,
}

-- Whether an end tag of this name begins here: `</`, the name in any case, and what may end a name.
unfoldable pub is_end_tag : Text → Text → Bool
unfolding starts_with to_ascii_lowercase name_may_end drop
is_end_tag name t =
    starts_with (to_ascii_lowercase t) (codes "</" ++ name)
    && name_may_end (drop (length (codes "</" ++ name)) t)

-- The first place where one begins: what stands before it, and the text from there on.
unfoldable pub first_end : Text → Text → Option (Text × Text)
unfolding is_end_tag
first_end name [] = none
first_end name (c ∷ t) =
    let rest = first_end name t in
    if is_end_tag name (c ∷ t) then some ([], c ∷ t) else prefixed c rest

-- The element ends there if the tag ends, and holds its name, and a slash at most.
abbrev pub closed_by : Text → Option (Text × Text) → Option (Text × Text)
closed_by name none = none
closed_by name (some (before, at)) = close_at name before at

joined_nothing : (o : Option (Text × Text)) → joined_before [] o ≡ o
joined_nothing none = refl
joined_nothing (some (inner, next)) = refl

joined_twice :
    (a b : Text) (o : Option (Text × Text))
    → joined_before (a ++ b) o ≡ joined_before a (joined_before b o)
joined_twice a b none = refl
joined_twice a b (some (inner, next)) = ap (λ t. some (t, next)) (append_assoc a b inner)

joined_prefixed :
    (c : ℕ) (before : Text) (o : Option (Text × Text))
    → prefixed c (joined_before before o) ≡ joined_before (c ∷ before) o
joined_prefixed c before none = refl
joined_prefixed c before (some (inner, next)) = refl

close_at-joined :
    (name before b at : Text)
    → close_at name (before ++ b) at ≡ joined_before before (close_at name b at)
close_at-joined name before b at = elim (Option-cases (tag_end none (drop 1 at))) [
  | inl e ↦ rw (e, close_at) refl
  | inr ((close_body, next), e) ↦ elim (Bool-cases (closes (codes "/" ++ name) (trim close_body))) [
    | inl f ↦ rw (e, close_at) (rw f refl)
    | inr f ↦ rw (e, close_at) (rw f refl)
  ]
]

closed_by-joined :
    (name before : Text) (o : Option (Text × Text))
    → closed_by name (joined_before before o) ≡ joined_before before (closed_by name o)
closed_by-joined name before none = refl
closed_by-joined name before (some (b, at)) = close_at-joined name before b at

no_end_of_prefix :
    (name : Text) (c : ℕ) (t : Text)
    → starts_with (to_ascii_lowercase (c ∷ t)) (codes "</" ++ name) ≡ false
    → first_end name (c ∷ t) ≡ prefixed c (first_end name t)
unfolding first_end is_end_tag
no_end_of_prefix name c t h = rw h refl

-- What `find_lower` passes over holds no end tag.
found_none : (name t : Text) → find_lower (codes "</" ++ name) t ≡ none → first_end name t ≡ none
unfolding find_lower
found_none name [] h = unfold first_end in refl
found_none name (c ∷ t) h =
    elim (Bool-cases (starts_with (to_ascii_lowercase (c ∷ t)) (codes "</" ++ name))) [
      | inl here ↦ absurd (ground arith)
      | inr later ↦ elim (Option-cases (find_lower (codes "</" ++ name) t)) [
        | inl e ↦ no_end_of_prefix name c t later ∙ ap (prefixed c) (found_none name t e)
        | inr ((before, at), e) ↦ absurd (ground arith)
      ]
    ]

-- What is found begins as an end tag does, and what stands before it holds none.
found_some :
    (name t before at : Text)
    → find_lower (codes "</" ++ name) t ≡ some (before, at)
    → (starts_with (to_ascii_lowercase at) (codes "</" ++ name) ≡ true)
      × (first_end name t ≡ joined_before before (first_end name at))
unfolding find_lower starts_with first_end
found_some name [] before at h = cc
found_some name (c ∷ t) before at h =
    elim (Bool-cases (starts_with (to_ascii_lowercase (c ∷ t)) (codes "</" ++ name))) [
      | inl here ↦
          let at_is : at ≡ c ∷ t = ground arith in
          let before_is : before ≡ [] = ground arith in
          rw (at_is, before_is) (here, sym (joined_nothing (first_end name (c ∷ t))))
      | inr later ↦ elim (Option-cases (find_lower (codes "</" ++ name) t)) [
        | inl e ↦ absurd (ground arith)
        | inr ((b, a), e) ↦
            let at_is : at ≡ a = ground arith in
            let before_is : before ≡ c ∷ b = ground arith in
            let (begins, passed_over) = found_some name t b a e in
            rw (at_is, before_is)
              (
                begins,
                no_end_of_prefix name c t later
                    ∙ ap (prefixed c) passed_over
                    ∙ joined_prefixed c b (first_end name a),
              )
      ]
    ]

-- Where no `<` stands, no end tag begins.
skipped :
    (name q t : Text)
    → starts_with (to_ascii_lowercase t) q ≡ true
    → all (λ c. not (c == b'<')) q ≡ true
    → first_end name t ≡ joined_before (take (length q) t) (first_end name (drop (length q) t))
unfolding starts_with to_ascii_lowercase all take drop
skipped name [] t h free = sym (joined_nothing (first_end name t))
skipped name (d ∷ q) [] h free = cc
skipped name (d ∷ q) (c ∷ t) h free =
    let same : to_ascii_lower c ≡ d = ground (arith, ==_iff (to_ascii_lower c) d) in
    let other : (to_ascii_lower c == b'<') ≡ false = rw same (ground arith) in
    no_end_of_prefix name c t (rw other refl)
    ∙ ap (prefixed c) (skipped name q t (ground arith) (ground arith))
    ∙ joined_prefixed c (take (length q) t) (first_end name (drop (length q) t))

name_byte_other : (c : ℕ) → is_tag_name_byte c ≡ true → (c == b'<') ≡ false
unfolding is_tag_name_byte is_ascii_alphanumeric
name_byte_other c h = ground arith

no_opening :
    (name : Text) → all is_tag_name_byte name ≡ true → all (λ c. not (c == b'<')) name ≡ true
unfolding all
no_opening [] h = refl
no_opening (c ∷ t) h =
    let first = name_byte_other c (ground arith) in rw (first, no_opening t (ground arith)) refl

-- An end tag that begins and has a name of its own is passed over with its name.
passed_over :
    (name at : Text)
    → all is_tag_name_byte name ≡ true
    → starts_with (to_ascii_lowercase at) (codes "</" ++ name) ≡ true
    → name_may_end (drop (length (codes "</" ++ name)) at) ≡ false
    → first_end name at
      ≡ joined_before
          (take (length (codes "</" ++ name)) at)
          (first_end name (drop (length (codes "</" ++ name)) at))
unfolding first_end is_end_tag starts_with to_ascii_lowercase take drop all
passed_over name [] bytes begins longer = cc
passed_over name (c ∷ t) bytes begins longer =
    let none_here : first_end name (c ∷ t) ≡ prefixed c (first_end name t) =
      rw (begins, longer) refl in
    let free : all (λ x. not (x == b'<')) (b'/' ∷ name) ≡ true = no_opening name bytes in
    none_here
    ∙ ap (prefixed c) (skipped name (b'/' ∷ name) t (ground arith) free)
    ∙ joined_prefixed c (take (length (b'/' ∷ name)) t)
        (first_end name (drop (length (b'/' ∷ name)) t))

ends_here :
    (name before at : Text)
    → starts_with (to_ascii_lowercase at) (codes "</" ++ name) ≡ true
    → name_may_end (drop (length (codes "</" ++ name)) at) ≡ true
    → joined_before before (first_end name at) ≡ some (before, at)
unfolding first_end is_end_tag starts_with to_ascii_lowercase
ends_here name before [] begins may = cc
ends_here name before (c ∷ t) begins may =
    let here : first_end name (c ∷ t) ≡ some ([], c ∷ t) = rw (begins, may) refl in
    ap (joined_before before) here ∙ ap (λ b. some (b, c ∷ t)) (append-nil before)

bounds_of_first_end :
    (fuel : ℕ) (name tail : Text)
    → all is_tag_name_byte name ≡ true
    → length tail < fuel
    → raw_text_element_bounds fuel name tail ≡ closed_by name (first_end name tail)
unfolding raw_text_element_bounds
bounds_of_first_end zero name tail bytes h = absurd (omega arith)
bounds_of_first_end (suc fuel) name tail bytes h =
    let prefix = codes "</" ++ name in
    elim (Option-cases (find_lower prefix tail)) [
      | inl e ↦ rw (e, raw_text_element_bounds) (ap (closed_by name) (sym (found_none name tail e)))
      | inr ((before, at), e) ↦
          let (begins, found) = found_some name tail before at e in
          let size = find_lower-length b'<' (b'/' ∷ name) tail before at e in
          let short = length-drop-lt (length (b'/' ∷ name)) at size.0 in
          let behind : Text = drop (length prefix) at in
          elim (Bool-cases (name_may_end behind)) [
            | inl may ↦
                rw (e, raw_text_element_bounds)
                  (rw may (ap (closed_by name) (sym (found ∙ ends_here name before at begins may))))
            | inr longer ↦
                let rest = bounds_of_first_end fuel name behind bytes (omega (arith, size.1)) in
                let taken = before ++ take (length prefix) at in
                let shown : joined_before taken (raw_text_element_bounds fuel name behind)
                    ≡ closed_by name (first_end name tail) =
                  ap (joined_before taken) rest
                  ∙ sym (closed_by-joined name taken (first_end name behind))
                  ∙ ap (closed_by name) (
                      joined_twice before (take (length prefix) at) (first_end name behind)
                      ∙ ap (joined_before before) (sym (passed_over name at bytes begins longer))
                      ∙ sym found) in
                rw (e, raw_text_element_bounds) (rw longer shown)
          ]
    ]

pub raw_text_element_bounds_lem :
    (name tail : Text)
    → all is_tag_name_byte name ≡ true
    → raw_text_element_bounds (length tail + 1) name tail ≡ closed_by name (first_end name tail)
raw_text_element_bounds_lem name tail bytes =
    bounds_of_first_end (length tail + 1) name tail bytes (omega arith)
