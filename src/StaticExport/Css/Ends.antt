-- ===== src/StaticExport/Css/Ends.antt =====
-- apps/local-server/src/static_export.rs: the loop of the style sheet's reader, and its fuel.
use synapsegit_lp_studio.StaticExport.{CssReferenceScan}
use synapsegit_lp_studio.StaticExport.Css.{
  CssRound, closing_parenthesis, css_argument_at, css_found, css_from, css_gives_up, css_goes_on,
  css_import, css_keyword_at, css_passed, css_plain_argument, css_quoted_argument, css_round,
  css_token_boundary, css_unknown, css_url, is_ascii_whitespace, is_name_before, with_found,
}
use synapsegit_lp_studio.StaticExport.Rests.{Leaves, Leaves-weaken, split_once-Leaves}
use synapsegit_lp_studio.ChangeSet.Markup.{is_quote}
use synapsegit_lp_studio.ChangeSet.Markup.RawText.{length-drop-le}
use synapsegit_lp_studio.ChangeSet.Markup.Attributes.{split_once-length, trim_start_matches-length}
use synapsegit_lp_studio.Prelude.{
  Bool-cases, Option, Option-cases, [], any, ap, arith, inl, inr, length, list_eq, nat_eq, none,
  not, refl, some, suc, zero, ℕ, ◌&&◌, ◌<◌, ◌==◌, ◌||◌, ◌∷◌, ◌≡◌, ◌≤◌,
}
use synapsegit_lp_studio.Prelude.Text.{Text, codes, drop, split_once, trim, trim_start_matches}

abbrev pub CssLeaves : ℕ → CssRound → Type 0
CssLeaves n css_gives_up = Unit
CssLeaves n (css_goes_on found previous rest) = length rest ≤ n

css_found-Leaves :
    (n previous : ℕ) (o : Option (Text × Text)) → Leaves n o → CssLeaves n (css_found previous o)
css_found-Leaves n previous none h = tt
css_found-Leaves n previous (some (value, rest)) h = h

css_passed-Leaves :
    (n quote : ℕ) (o : Option (Text × Text)) → Leaves n o → CssLeaves n (css_passed quote o)
css_passed-Leaves n quote none h = tt
css_passed-Leaves n quote (some (value, rest)) h = h

closing_parenthesis-Leaves : (value t : Text) → Leaves (length t) (closing_parenthesis value t)
closing_parenthesis-Leaves value [] = tt
closing_parenthesis-Leaves value (c ∷ t) = elim (Bool-cases (c == b')')) [
  | inl e ↦ rw e (omega arith)
  | inr e ↦ rw e tt
]

css_quoted_argument-Leaves :
    (quote : ℕ) (t : Text) → Leaves (length t) (css_quoted_argument quote t)
unfolding css_quoted_argument
css_quoted_argument-Leaves quote t = elim (Option-cases (split_once quote t)) [
  | inl e ↦ rw (e, css_quoted_argument) tt
  | inr ((value, rest), e) ↦
      let behind = trim_start_matches is_ascii_whitespace rest in
      let trimmed = trim_start_matches-length is_ascii_whitespace rest in
      let short = split_once-length quote t value rest e in
      rw (e, css_quoted_argument)
        (Leaves-weaken (length behind) (length t) (closing_parenthesis value behind) (omega arith)
          (closing_parenthesis-Leaves value behind))
]

css_plain_argument-Leaves : (t : Text) → Leaves (length t) (css_plain_argument t)
unfolding css_plain_argument
css_plain_argument-Leaves t = elim (Option-cases (split_once b')' t)) [
  | inl e ↦ rw (e, css_plain_argument) tt
  | inr ((inner, rest), e) ↦
      let short = split_once-length b')' t inner rest e in
      elim (Bool-cases (
        any (λ c. is_ascii_whitespace c || c == b'(' || c == b'\'' || c == b'"' || c == b'`')
          (trim inner))) [
            | inl f ↦ rw (e, css_plain_argument) (rw f tt)
            | inr f ↦ rw (e, css_plain_argument) (rw f short)
          ]
]

css_argument_at-Leaves : (t : Text) → Leaves (length t) (css_argument_at t)
unfolding css_argument_at
css_argument_at-Leaves [] = css_plain_argument-Leaves []
css_argument_at-Leaves (c ∷ t) = elim (Bool-cases (is_quote c)) [
  | inl e ↦ rw e (
      Leaves-weaken (length t) (length (c ∷ t)) (css_quoted_argument c t) (omega arith)
        (css_quoted_argument-Leaves c t))
  | inr e ↦ rw e (css_plain_argument-Leaves (c ∷ t))
]

css_import-Leaves : (t : Text) → CssLeaves (length t) (css_import t)
unfolding css_import
css_import-Leaves [] = tt
css_import-Leaves (c ∷ t) = elim (Bool-cases (is_quote c)) [
  | inl e ↦ rw e (
      css_found-Leaves (length (c ∷ t)) c (split_once c t) (
        Leaves-weaken (length t) (length (c ∷ t)) (split_once c t) (omega arith)
          (split_once-Leaves c t)))
  | inr e ↦ elim (Bool-cases (css_keyword_at (c ∷ t) (codes "url"))) [
    | inl f ↦ rw (e, f) (omega arith)
    | inr f ↦ rw (e, f) tt
  ]
]

CssLeaves-weaken : (m n : ℕ) (r : CssRound) → m ≤ n → CssLeaves m r → CssLeaves n r
CssLeaves-weaken m n css_gives_up le h = tt
CssLeaves-weaken m n (css_goes_on found previous rest) le h = omega arith

css_url-Leaves :
    (c : ℕ) (t behind : Text) → length behind ≤ length t → CssLeaves (length t) (css_url c t behind)
css_url-Leaves c t [] le = omega arith
css_url-Leaves c t (d ∷ behind) le = elim (Bool-cases (d == b'(')) [
  | inl e ↦
      let argument = trim_start_matches is_ascii_whitespace behind in
      let trimmed = trim_start_matches-length is_ascii_whitespace behind in
      rw e (
        css_found-Leaves (length t) b')' (css_argument_at argument) (
          Leaves-weaken (length argument) (length t) (css_argument_at argument) (omega arith)
            (css_argument_at-Leaves argument)))
  | inr e ↦ rw e (omega arith)
]

-- A round leaves at most what stands behind its first character.
pub css_round-Leaves :
    (previous : Option ℕ) (c : ℕ) (t : Text) → CssLeaves (length t) (css_round previous c t)
unfolding css_round
css_round-Leaves previous c t =
    let import_at = trim_start_matches is_ascii_whitespace (drop 6 t) in
    let trimmed = trim_start_matches-length is_ascii_whitespace (drop 6 t) in
    let dropped = length-drop-le 6 t in
    let trimmed_url = trim_start_matches-length is_ascii_whitespace (drop 2 t) in
    let dropped_url = length-drop-le 2 t in
    elim (Bool-cases (is_quote c)) [
      | inl e ↦ rw e (css_passed-Leaves (length t) c (split_once c t) (split_once-Leaves c t))
      | inr e ↦
          elim (Bool-cases
            (c == b'@' && css_keyword_at t (codes "import") && css_token_boundary (drop 6 t))) [
              | inl f ↦
                  rw (e, f)
                    (CssLeaves-weaken (length import_at) (length t) (css_import import_at)
                      (omega arith) (css_import-Leaves import_at))
              | inr f ↦
                  elim (Bool-cases
                    (not (is_name_before previous) && css_keyword_at (c ∷ t) (codes "url"))) [
                      | inl g ↦
                          rw (e, f, g)
                            (css_url-Leaves c t (trim_start_matches is_ascii_whitespace (drop 2 t))
                              (omega arith))
                      | inr g ↦ rw (e, f, g) (omega arith)
                    ]
            ]
    ]

pub css_next_enough :
    (n : ℕ) (round : CssRound) (f g : Option ℕ → Text → CssReferenceScan)
    → CssLeaves n round
    → ((last : Option ℕ) (rest : Text) → length rest ≤ n → f last rest ≡ g last rest)
    → elim round [
      | css_gives_up ↦ css_unknown
      | css_goes_on found last rest ↦ with_found found (f (some last) rest)
    ]
      ≡ elim round [
        | css_gives_up ↦ css_unknown
        | css_goes_on found last rest ↦ with_found found (g (some last) rest)
      ]
css_next_enough n css_gives_up f g short same = refl
css_next_enough n (css_goes_on found last rest) f g short same =
    ap (with_found found) (same (some last) rest short)

pub css_from_enough :
    (fuel more : ℕ) (previous : Option ℕ) (text : Text)
    → length text < fuel
    → length text < more
    → css_from fuel previous text ≡ css_from more previous text
unfolding css_from
css_from_enough zero more previous text h k = absurd (omega arith)
css_from_enough (suc fuel) zero previous text h k = absurd (omega arith)
css_from_enough (suc fuel) (suc more) previous [] h k = refl
css_from_enough (suc fuel) (suc more) previous (c ∷ t) h k =
    css_next_enough (length t) (css_round previous c t) (css_from fuel) (css_from more)
      (css_round-Leaves previous c t)
      (λ last rest short. css_from_enough fuel more last rest (omega arith) (omega arith))
