-- ===== src/Publication/Markdown.antt =====
-- apps/local-server/src/publication.rs: what the texts escaped for Markdown show.
use synapsegit_lp_studio.Publication.{is_markdown_mark, markdown_char, markdown_inline}
use synapsegit_lp_studio.Publication.Escape.{entity, entity_plain}
use synapsegit_lp_studio.Prelude.{
  Bool, Bool-cases, Option, [], any, ap, arith, false, if◌then◌else◌, inl, inr, list_eq, map,
  nat_eq, none, refl, some, suc, sym, true, zero, ℕ, ◌++◌, ◌==◌, ◌||◌, ◌∙◌, ◌∷◌, ◌≡◌, ◌≢◌,
}
use synapsegit_lp_studio.Prelude.Text.{Text, codes}

-- A line end or a tab is shown as a blank.
abbrev is_break : ℕ → Bool
is_break c = c == b'\n' || c == b'\r' || c == b'\t'

abbrev pub blank_if_break : ℕ → ℕ
blank_if_break c = if is_break c then b' ' else c

abbrev shown_first : ℕ → Option Text → Option Text
shown_first c none = none
shown_first c (some t) = some (c ∷ t)

-- The characters that the description of Markdown lets a backslash take the meaning from, and the bar
-- between the cells of a table.
unfoldable pub is_special : ℕ → Bool
unfolding any
is_special c = any (λ mark. mark == c) (codes "\\`*_{}[]()#+-.!|")

-- what means more than itself in a line of Markdown
unfoldable pub is_active : ℕ → Bool
unfolding is_special
is_active c = is_special c || c == b'&' || c == b'<' || c == b'>' || is_break c

-- A reader of a line of Markdown: a special character behind a backslash, and a reference, stand for a
-- character. It gives up where a special character stands by itself, and where a backslash stands
-- before any other character.
unfoldable pub read_markdown : Bool → ℕ → Text → Option Text
unfolding entity is_special
read_markdown escaped skip [] = if escaped then none else some []
read_markdown escaped (suc skip) (c ∷ t) = read_markdown escaped skip t
read_markdown true zero (c ∷ t) =
    let next = read_markdown false zero t in if is_special c then shown_first c next else none
read_markdown false zero (c ∷ t) = elim (entity (c ∷ t)) [
  | some (shown, skip) ↦ shown_first shown (read_markdown false skip t)
  | none ↦
      let next = read_markdown (c == b'\\') zero t in
      if c == b'\\' then next else if is_active c then none else shown_first c next
]

-- The code escapes the special characters, and no others.
mark_is_special : (c : ℕ) → is_markdown_mark c ≡ is_special c
unfolding is_markdown_mark is_special
mark_is_special c = refl

space_is_active : is_active b' ' ≡ false
unfolding is_active is_special
space_is_active = refl

markdown_char_mark :
    (c : ℕ)
    → is_break c ≡ false
    → c ≢ b'&'
    → c ≢ b'<'
    → c ≢ b'>'
    → is_markdown_mark c ≡ true
    → markdown_char c ≡ b'\\' ∷ c ∷ []
unfolding markdown_char
markdown_char_mark c h₁ h₂ h₃ h₄ mark = ground arith

markdown_char_plain :
    (c : ℕ)
    → is_break c ≡ false
    → c ≢ b'&'
    → c ≢ b'<'
    → c ≢ b'>'
    → is_markdown_mark c ≡ false
    → markdown_char c ≡ c ∷ []
unfolding markdown_char
markdown_char_plain c h₁ h₂ h₃ h₄ mark = ground arith

backslash_is_mark : is_markdown_mark b'\\' ≡ true
unfolding is_markdown_mark
backslash_is_mark = refl

not_backslash : (c : ℕ) → is_markdown_mark c ≡ false → (c == b'\\') ≡ false
not_backslash c h = elim (Bool-cases (c == b'\\')) [
  | inl e ↦
      let c_is : c ≡ b'\\' = ground arith in
      absurd (ground (arith, backslash_is_mark, ap is_markdown_mark c_is))
  | inr e ↦ e
]

inactive : (c : ℕ) → is_active c ≡ false → (is_markdown_mark c ≡ false) × (c ≢ b'&')
unfolding is_active
inactive c h = (mark_is_special c ∙ ground arith, ground arith)

plain_inactive :
    (c : ℕ)
    → is_break c ≡ false
    → c ≢ b'&'
    → c ≢ b'<'
    → c ≢ b'>'
    → is_markdown_mark c ≡ false
    → is_active c ≡ false
unfolding is_active
plain_inactive c h₁ h₂ h₃ h₄ mark = let not_special = sym (mark_is_special c) ∙ mark in ground arith

-- A character that is no mark is read as itself.
read_markdown_plain :
    (c : ℕ) (t : Text)
    → is_active c ≡ false
    → read_markdown false zero (c ∷ t) ≡ shown_first c (read_markdown false zero t)
unfolding read_markdown
read_markdown_plain c t h =
    let (no_mark, no_reference) = inactive c h in
    rw (entity_plain c t no_reference, read_markdown) (rw (not_backslash c no_mark) (rw h refl))

-- The characters behind the references and the breaks.
read_markdown_unbroken :
    (c : ℕ) (t : Text)
    → is_break c ≡ false
    → c ≢ b'&'
    → c ≢ b'<'
    → c ≢ b'>'
    → read_markdown false zero (markdown_char c ++ t)
      ≡ shown_first (blank_if_break c) (read_markdown false zero t)
unfolding read_markdown
read_markdown_unbroken c t h₁ h₂ h₃ h₄ =
    let keeps : blank_if_break c ≡ c = rw h₁ refl in
    elim (Bool-cases (is_markdown_mark c)) [
      | inl mark ↦
          let special = sym (mark_is_special c) ∙ mark in
          rw (markdown_char_mark c h₁ h₂ h₃ h₄ mark) (rw (keeps, special) refl)
      | inr other ↦ rw (markdown_char_plain c h₁ h₂ h₃ h₄ other) (
          read_markdown_plain c t (plain_inactive c h₁ h₂ h₃ h₄ other)
          ∙ ap (λ x. shown_first x (read_markdown false zero t)) (sym keeps))
    ]

read_markdown-markdown_char :
    (c : ℕ) (t : Text)
    → read_markdown false zero (markdown_char c ++ t)
      ≡ shown_first (blank_if_break c) (read_markdown false zero t)
unfolding read_markdown markdown_char
read_markdown-markdown_char c t = elim (Bool-cases (c == b'&')) [
  | inl e ↦ let c_is : c ≡ b'&' = ground arith in rw c_is refl
  | inr e6 ↦ elim (Bool-cases (c == b'<')) [
    | inl e ↦ let c_is : c ≡ b'<' = ground arith in rw c_is refl
    | inr e5 ↦ elim (Bool-cases (c == b'>')) [
      | inl e ↦ let c_is : c ≡ b'>' = ground arith in rw c_is refl
      | inr e4 ↦ elim (Bool-cases (c == b'\n')) [
        | inl e ↦
            let c_is : c ≡ b'\n' = ground arith in
            rw c_is (read_markdown_plain b' ' t space_is_active)
        | inr e3 ↦ elim (Bool-cases (c == b'\r')) [
          | inl e ↦
              let c_is : c ≡ b'\r' = ground arith in
              rw c_is (read_markdown_plain b' ' t space_is_active)
          | inr e2 ↦ elim (Bool-cases (c == b'\t')) [
            | inl e ↦
                let c_is : c ≡ b'\t' = ground arith in
                rw c_is (read_markdown_plain b' ' t space_is_active)
            | inr e1 ↦
                read_markdown_unbroken c t (ground arith) (ground arith) (ground arith)
                  (ground arith)
          ]
        ]
      ]
    ]
  ]
]

-- An escaped text is one line of Markdown in which no special character stands by itself, and a reader
-- reads the text that was escaped, its line ends and tabs as blanks. The special characters are
-- \ ` * _ { } [ ] ( ) # + - . ! | and < > &.
pub markdown_inline_lem :
    (value : Text) → read_markdown false 0 (markdown_inline value) ≡ some (map blank_if_break value)
unfolding markdown_inline read_markdown
markdown_inline_lem [] = refl
markdown_inline_lem (c ∷ t) =
    read_markdown-markdown_char c (markdown_inline t)
    ∙ ap (shown_first (blank_if_break c)) (markdown_inline_lem t)
