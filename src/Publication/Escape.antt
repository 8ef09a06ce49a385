-- ===== src/Publication/Escape.antt =====
-- apps/local-server/src/publication.rs: what the escaped texts show.
use synapsegit_lp_studio.Publication.{html_char, html}
use synapsegit_lp_studio.Prelude.{
  Bool, Bool-cases, Option, [], any, any-append, ap, arith, false, if◌then◌else◌, inl, inr, list_eq,
  nat_eq, none, refl, some, suc, zero, ℕ, ◌++◌, ◌==◌, ◌||◌, ◌∙◌, ◌∷◌, ◌≡◌, ◌≢◌,
}
use synapsegit_lp_studio.Prelude.Text.{Text, codes, starts_with}

-- A reader of HTML text: a reference stands for its character. It skips what a reference holds behind
-- its first character.
unfoldable pub entity : Text → Option (ℕ × ℕ)
unfolding starts_with
entity t =
    if starts_with t (codes "&amp;")
    then some (b'&', 4)
    else if starts_with t (codes "&lt;")
    then some (b'<', 3)
    else if starts_with t (codes "&gt;")
    then some (b'>', 3)
    else if starts_with t (codes "&quot;")
    then some (b'"', 5)
    else if starts_with t (codes "&#39;")
    then some (b'\'', 4)
    else none

unfoldable pub read_html : ℕ → Text → Text
read_html skip [] = []
read_html (suc skip) (c ∷ t) = read_html skip t
read_html zero (c ∷ t) = elim (entity (c ∷ t)) [
  | some (shown, skip) ↦ shown ∷ read_html skip t
  | none ↦ c ∷ read_html zero t
]

pub entity_plain : (c : ℕ) (t : Text) → c ≢ b'&' → entity (c ∷ t) ≡ none
unfolding entity
entity_plain c t h = ground arith

html_char_plain :
    (c : ℕ) → c ≢ b'&' → c ≢ b'<' → c ≢ b'>' → c ≢ b'"' → c ≢ b'\'' → html_char c ≡ c ∷ []
unfolding html_char
html_char_plain c h₁ h₂ h₃ h₄ h₅ = ground arith

read_html-html_char : (c : ℕ) (t : Text) → read_html zero (html_char c ++ t) ≡ c ∷ read_html zero t
unfolding read_html html_char entity
read_html-html_char c t = elim (Bool-cases (c == b'&')) [
  | inl e ↦ let c_is : c ≡ b'&' = ground arith in rw c_is refl
  | inr e5 ↦ elim (Bool-cases (c == b'<')) [
    | inl e ↦ let c_is : c ≡ b'<' = ground arith in rw c_is refl
    | inr e4 ↦ elim (Bool-cases (c == b'>')) [
      | inl e ↦ let c_is : c ≡ b'>' = ground arith in rw c_is refl
      | inr e3 ↦ elim (Bool-cases (c == b'"')) [
        | inl e ↦ let c_is : c ≡ b'"' = ground arith in rw c_is refl
        | inr e2 ↦ elim (Bool-cases (c == b'\'')) [
          | inl e ↦ let c_is : c ≡ b'\'' = ground arith in rw c_is refl
          | inr e1 ↦
              rw
                (html_char_plain c (ground arith) (ground arith) (ground arith) (ground arith)
                  (ground arith))
                (rw (entity_plain c t (ground arith), read_html) refl)
        ]
      ]
    ]
  ]
]

read_html-html : (value : Text) → read_html zero (html value) ≡ value
unfolding html read_html
read_html-html [] = refl
read_html-html (c ∷ t) = read_html-html_char c (html t) ∙ ap (λ shown. c ∷ shown) (read_html-html t)

-- the characters that end a text or an attribute's value
abbrev pub is_markup : ℕ → Bool
is_markup c = c == b'<' || c == b'>' || c == b'"' || c == b'\''

any-html_char : (c : ℕ) → any is_markup (html_char c) ≡ false
unfolding any html_char
any-html_char c = elim (Bool-cases (c == b'&')) [
  | inl e ↦ let c_is : c ≡ b'&' = ground arith in rw c_is refl
  | inr e5 ↦ elim (Bool-cases (c == b'<')) [
    | inl e ↦ let c_is : c ≡ b'<' = ground arith in rw c_is refl
    | inr e4 ↦ elim (Bool-cases (c == b'>')) [
      | inl e ↦ let c_is : c ≡ b'>' = ground arith in rw c_is refl
      | inr e3 ↦ elim (Bool-cases (c == b'"')) [
        | inl e ↦ let c_is : c ≡ b'"' = ground arith in rw c_is refl
        | inr e2 ↦ elim (Bool-cases (c == b'\'')) [
          | inl e ↦ let c_is : c ≡ b'\'' = ground arith in rw c_is refl
          | inr e1 ↦
              rw
                (html_char_plain c (ground arith) (ground arith) (ground arith) (ground arith)
                  (ground arith))
                (ground arith)
        ]
      ]
    ]
  ]
]

any-html : (value : Text) → any is_markup (html value) ≡ false
unfolding html any
any-html [] = refl
any-html (c ∷ t) =
    ground (arith, any-append is_markup (html_char c) (html t), any-html_char c, any-html t)

-- An escaped text has no character that could open or close an element or an attribute's value, and
-- a reader of HTML reads the text that was escaped.
pub html_lem :
    (value : Text) → (any is_markup (html value) ≡ false) × (read_html 0 (html value) ≡ value)
html_lem value = (any-html value, read_html-html value)
