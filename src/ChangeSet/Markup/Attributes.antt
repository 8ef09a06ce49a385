-- ===== src/ChangeSet/Markup/Attributes.antt =====
-- apps/local-server/src/change_set.rs: the loop of `parse_attributes`, and its fuel.
use synapsegit_lp_studio.ChangeSet.Markup.{
  attribute_value, is_quote, name_at, parse_attributes, parse_attributes_from, quoted_value,
  skip_to_name, unquoted_value, value_at,
}
use synapsegit_lp_studio.ChangeSet.Markup.RawText.{prefixed-some}
use synapsegit_lp_studio.Prelude.{
  Bool, Bool-cases, Option-cases, [], ap, arith, false, if◌then◌else◌, inl, inr, length, list_eq,
  nat_eq, refl, some, suc, zero, ℕ, ◌+◌, ◌<◌, ◌==◌, ◌||◌, ◌∙◌, ◌∷◌, ◌≡◌, ◌≤◌,
}
use synapsegit_lp_studio.Prelude.Text.{
  Text, is_empty, is_whitespace, span, split_once, to_ascii_lowercase, trim_start,
  trim_start_matches,
}

pub trim_start_matches-length :
    (p : ℕ → Bool) (t : Text) → length (trim_start_matches p t) ≤ length t
unfolding trim_start_matches
trim_start_matches-length p [] = omega arith
trim_start_matches-length p (c ∷ t) = ground (arith, trim_start_matches-length p t)

pub span-length : (p : ℕ → Bool) (t : Text) → length (span p t).0 + length (span p t).1 ≡ length t
unfolding span
span-length p [] = omega arith
span-length p (c ∷ t) = elim (Bool-cases (p c)) [
  | inl e ↦ rw e (omega arith)
  | inr e ↦ rw e (omega (arith, span-length p t))
]

pub split_once-length :
    (sep : ℕ) (t a b : Text) → split_once sep t ≡ some (a, b) → length b ≤ length t
unfolding split_once
split_once-length sep [] a b h = cc
split_once-length sep (c ∷ t) a b h = elim (Bool-cases (c == sep)) [
  | inl e ↦ let b_is : b ≡ t = ground arith in rw b_is (omega arith)
  | inr e ↦
      let (earlier, f) = prefixed-some c (split_once sep t) a b (ground arith) in
      omega (arith, split_once-length sep t earlier b f)
]

quoted_value-length : (quote : ℕ) (t : Text) → length (quoted_value quote t).1 ≤ length t
unfolding quoted_value
quoted_value-length quote t = elim (Option-cases (split_once quote t)) [
  | inl e ↦ rw (e, quoted_value) (omega arith)
  | inr ((value, rest), e) ↦ rw (e, quoted_value) (split_once-length quote t value rest e)
]

unquoted_value-length : (t : Text) → length (unquoted_value t).1 ≤ length t
unfolding unquoted_value
unquoted_value-length t =
    omega (arith, span-length (λ c. is_whitespace c || c == b'/' || c == b'>') t)

value_at-length : (t : Text) → length (value_at t).1 ≤ length t
unfolding value_at
value_at-length [] = unquoted_value-length []
value_at-length (c ∷ t) = elim (Bool-cases (is_quote c)) [
  | inl e ↦ rw e (omega (arith, quoted_value-length c t))
  | inr e ↦ rw e (unquoted_value-length (c ∷ t))
]

attribute_value-length : (t : Text) → length (attribute_value t).1 ≤ length t
unfolding attribute_value trim_start
attribute_value-length [] = omega arith
attribute_value-length (c ∷ t) = elim (Bool-cases (c == b'=')) [
  | inl e ↦
      rw e
        (omega (arith, value_at-length (trim_start t), trim_start_matches-length is_whitespace t))
  | inr e ↦ rw e (omega arith)
]

-- What one round reads: the name, the value and the rest.
abbrev pub attribute_round : Text → Text × (Text × Text)
attribute_round input = (
  (name_at (skip_to_name input)).0,
  attribute_value (trim_start (name_at (skip_to_name input)).1),
)

pub length-not_empty : (t : Text) → is_empty t ≡ false → 1 ≤ length t
length-not_empty [] h = cc
length-not_empty (c ∷ t) h = omega arith

attribute_round-length :
    (input : Text)
    → is_empty (attribute_round input).0 ≡ false
    → length (attribute_round input).1.1 < length input
unfolding trim_start
attribute_round-length input h =
    let skipped = skip_to_name input in
    let behind = (name_at skipped).1 in
    let start = trim_start_matches-length (λ c. is_whitespace c || c == b'/') input in
    let parts = span-length (λ c. is_whitespace c || c == b'=' || c == b'/' || c == b'>') skipped in
    let named = length-not_empty (name_at skipped).0 h in
    let trimmed = trim_start_matches-length is_whitespace behind in
    omega (arith, attribute_value-length (trim_start behind))

parse_attributes_from_enough :
    (fuel more : ℕ) (input : Text)
    → length input < fuel
    → length input < more
    → parse_attributes_from fuel input ≡ parse_attributes_from more input
unfolding parse_attributes_from
parse_attributes_from_enough zero more input h k = absurd (omega arith)
parse_attributes_from_enough (suc fuel) zero input h k = absurd (omega arith)
parse_attributes_from_enough (suc fuel) (suc more) input h k =
    elim (Bool-cases (is_empty (attribute_round input).0)) [
      | inl e ↦ rw e refl
      | inr e ↦
          let short = attribute_round-length input e in
          rw e (
            ap
              (λ l. (to_ascii_lowercase (attribute_round input).0, (attribute_round input).1.0) ∷ l)
              (parse_attributes_from_enough fuel more (attribute_round input).1.1 (omega arith)
                (omega arith)))
    ]

parse_attributes_loop :
    (input : Text)
    → parse_attributes_from (suc (length input)) input ≡ (
        if is_empty (attribute_round input).0
        then []
        else (to_ascii_lowercase (attribute_round input).0, (attribute_round input).1.0)
          ∷ parse_attributes_from
              (length (attribute_round input).1.1 + 1)
              (attribute_round input).1.1)
unfolding parse_attributes_from
parse_attributes_loop input = elim (Bool-cases (is_empty (attribute_round input).0)) [
  | inl e ↦ rw e refl
  | inr e ↦
      let short = attribute_round-length input e in
      rw e (
        ap (λ l. (to_ascii_lowercase (attribute_round input).0, (attribute_round input).1.0) ∷ l)
          (parse_attributes_from_enough (length input) (length (attribute_round input).1.1 + 1)
            (attribute_round input).1.1 (omega arith) (omega arith)))
]

-- The attributes of a tag are those of the loop without fuel: none where no name is left, else the
-- name in lowercase with its value, and the attributes of the rest.
pub parse_attributes_lem :
    (input : Text)
    → parse_attributes input ≡ (
        if is_empty (attribute_round input).0
        then []
        else (to_ascii_lowercase (attribute_round input).0, (attribute_round input).1.0)
          ∷ parse_attributes (attribute_round input).1.1)
unfolding parse_attributes
parse_attributes_lem input =
    parse_attributes_from_enough (length input + 1) (suc (length input)) input (omega arith)
      (omega arith)
    ∙ parse_attributes_loop input
