-- ===== src/StaticExport/Css.antt =====
-- apps/local-server/src/static_export.rs: the references of a style sheet. A cursor into the text is
-- the rest from there on; the byte before it is kept as the last character that was passed. What the
-- code tests of bytes are ASCII characters, and no byte of another character is one of them.
pub mod Ends
use synapsegit_lp_studio.StaticExport.{CssReferenceScan}
use synapsegit_lp_studio.ChangeSet.Markup.{is_quote}
use synapsegit_lp_studio.Prelude.{
  Bool, List, Option, [], any, false, if◌then◌else◌, length, list_eq, ltb, nat_eq, none, not, some,
  suc, true, zero, ℕ, ◌&&◌, ◌++◌, ◌+◌, ◌==◌, ◌||◌, ◌∷◌,
}
use synapsegit_lp_studio.Prelude.Text.{
  Text, codes, contains, contains_char, drop, is_ascii_alphanumeric, is_empty, split_once,
  starts_with, to_ascii_lowercase, trim, trim_start_matches,
}

unfoldable pub css_name_char : ℕ → Bool
unfolding is_ascii_alphanumeric
css_name_char c = is_ascii_alphanumeric c || c == b'_' || c == b'-' || not (ltb c 0x80)

abbrev pub css_token_boundary : Text → Bool
css_token_boundary [] = true
css_token_boundary (c ∷ t) = not (css_name_char c)

unfoldable pub is_ascii_whitespace : ℕ → Bool
is_ascii_whitespace c = c == b' ' || c == b'\t' || c == b'\n' || c == 12 || c == b'\r'

unfoldable pub css_keyword_at : Text → Text → Bool
unfolding starts_with to_ascii_lowercase
css_keyword_at text keyword = starts_with (to_ascii_lowercase text) keyword

-- What an `url(` argument and a quoted import are: the value, and what stands behind.
abbrev pub closing_parenthesis : Text → Text → Option (Text × Text)
closing_parenthesis value [] = none
closing_parenthesis value (c ∷ t) = if c == b')' then some (value, t) else none

unfoldable pub css_quoted_argument : ℕ → Text → Option (Text × Text)
unfolding split_once trim_start_matches is_ascii_whitespace
css_quoted_argument quote t = elim (split_once quote t) [
  | none ↦ none
  | some (value, rest) ↦ closing_parenthesis value (trim_start_matches is_ascii_whitespace rest)
]

unfoldable pub css_plain_argument : Text → Option (Text × Text)
unfolding split_once trim any is_ascii_whitespace
css_plain_argument t = elim (split_once b')' t) [
  | none ↦ none
  | some (inner, rest) ↦
      let raw = trim inner in
      if any (λ c. is_ascii_whitespace c || c == b'(' || c == b'\'' || c == b'"' || c == b'`') raw
      then none
      else some (raw, rest)
]

-- `css_url_argument`, on what stands behind the parenthesis
unfoldable pub css_argument_at : Text → Option (Text × Text)
unfolding css_quoted_argument css_plain_argument
css_argument_at [] = css_plain_argument []
css_argument_at (c ∷ t) = if is_quote c then css_quoted_argument c t else css_plain_argument (c ∷ t)

abbrev pub css_url_argument : Text → Option (Text × Text)
css_url_argument t = css_argument_at (trim_start_matches is_ascii_whitespace t)

-- One round of the loop: it ends the scan as incomplete, or goes on with what it found, the character
-- it has passed last, and the rest.
pub data CssRound : Type 0 where
  css_gives_up : CssRound
  css_goes_on : (found : List Text) (previous : ℕ) (rest : Text) → CssRound

abbrev pub not_empty : Text → List Text
not_empty value = if is_empty value then [] else value ∷ []

abbrev pub css_found : ℕ → Option (Text × Text) → CssRound
css_found previous none = css_gives_up
css_found previous (some (value, rest)) = css_goes_on (not_empty value) previous rest

-- a string that is passed over
abbrev pub css_passed : ℕ → Option (Text × Text) → CssRound
css_passed quote none = css_gives_up
css_passed quote (some (value, rest)) = css_goes_on [] quote rest

-- What stands behind `@import` and its blanks. A keyword there has a blank before it.
unfoldable pub css_import : Text → CssRound
unfolding split_once css_keyword_at
css_import [] = css_gives_up
css_import (c ∷ t) =
    if is_quote c
    then css_found c (split_once c t)
    else if css_keyword_at (c ∷ t) (codes "url")
    then css_goes_on [] b' ' (c ∷ t)
    else css_gives_up

-- Behind `url`: an argument in parentheses, if there is one; else the scan goes on behind the `u`.
abbrev pub css_url : ℕ → Text → Text → CssRound
css_url c t [] = css_goes_on [] c t
css_url c t (d ∷ behind) =
    if d == b'(' then css_found b')' (css_url_argument behind) else css_goes_on [] c t

abbrev pub is_name_before : Option ℕ → Bool
is_name_before none = false
is_name_before (some c) = css_name_char c

unfoldable pub css_round : Option ℕ → ℕ → Text → CssRound
unfolding split_once css_keyword_at css_name_char drop trim_start_matches is_ascii_whitespace
    css_argument_at css_import
css_round previous c t =
    if is_quote c
    then css_passed c (split_once c t)
    else if c == b'@' && css_keyword_at t (codes "import") && css_token_boundary (drop 6 t)
    then css_import (trim_start_matches is_ascii_whitespace (drop 6 t))
    else if not (is_name_before previous) && css_keyword_at (c ∷ t) (codes "url")
    then css_url c t (trim_start_matches is_ascii_whitespace (drop 2 t))
    else css_goes_on [] c t

abbrev pub with_found : List Text → CssReferenceScan → CssReferenceScan
with_found found scan = record {
  css_references_found = found ++ scan.css_references_found;
  css_incomplete = scan.css_incomplete;
}

abbrev pub no_css : CssReferenceScan
no_css = record { css_references_found = []; css_incomplete = false }

abbrev pub css_unknown : CssReferenceScan
css_unknown = record { css_references_found = []; css_incomplete = true }

unfoldable pub css_from : ℕ → Option ℕ → Text → CssReferenceScan
css_from zero previous text = no_css
css_from (suc fuel) previous [] = no_css
css_from (suc fuel) previous (c ∷ t) = elim (css_round previous c t) [
  | css_gives_up ↦ css_unknown
  | css_goes_on found last rest ↦ with_found found (css_from fuel (some last) rest)
]

unfoldable pub css_references : Text → CssReferenceScan
unfolding contains_char contains to_ascii_lowercase css_from css_round
css_references text =
    let scan = css_from (length text + 1) none text in
    if contains_char text b'\\' || contains text (codes "/*") || contains text (codes "*/")
    then css_unknown
    else record {
      css_references_found = scan.css_references_found;
      css_incomplete =
          contains (to_ascii_lowercase text) (codes "image-set(")
          || contains (to_ascii_lowercase text) (codes "-webkit-image-set(")
          || scan.css_incomplete;
    }
