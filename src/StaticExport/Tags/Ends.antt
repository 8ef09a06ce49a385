-- ===== src/StaticExport/Tags/Ends.antt =====
-- apps/local-server/src/static_export.rs: the loops of the scanner for markup, and their fuel.
use synapsegit_lp_studio.StaticExport.{Exporting}
use synapsegit_lp_studio.StaticExport.Tags.{
  export_attribute, export_attributes_from, export_name_at, export_quoted_value,
  export_unquoted_value, export_value, export_value_at, is_bad_name_char, is_bad_value_char,
  malformed, more_attributes, export_close_at, export_raw_text, text_before,
}
use synapsegit_lp_studio.StaticExport.Rests.{
  ResultLeaves, ResultLeaves-weaken, malformed-Leaves, split_once-Leaves,
}
use synapsegit_lp_studio.ChangeSet.Markup.{is_quote, closes, find_lower, name_may_end, tag_end}
use synapsegit_lp_studio.ChangeSet.Markup.Attributes.{
  length-not_empty, span-length, trim_start_matches-length,
}
use synapsegit_lp_studio.ChangeSet.Markup.RawText.{
  find_lower-length, length-drop-le, tag_end-length,
}
use synapsegit_lp_studio.Prelude.{
  Bool-cases, List, Option-cases, [], any, ap, arith, err, inl, inr, length, list_eq, nat_eq, none,
  ok, refl, suc, zero, ℕ, ◌++◌, ◌<◌, ◌==◌, ◌>>=◌, ◌||◌, ◌∷◌, ◌≡◌, ◌≤◌,
}
use synapsegit_lp_studio.Prelude.Text.{
  Text, codes, drop, is_empty, is_whitespace, span, split_once, take, to_ascii_lowercase, trim,
  trim_start,
}

export_unquoted_value-Leaves :
    (source_path input : Text)
    → ResultLeaves (length input) (export_unquoted_value source_path input)
unfolding export_unquoted_value
export_unquoted_value-Leaves source_path input =
    let parts = span-length is_whitespace input in
    elim (Bool-cases (any is_bad_value_char (span is_whitespace input).0)) [
      | inl e ↦ rw e tt
      | inr e ↦ rw e (omega arith)
    ]

export_value_at-Leaves :
    (source_path input : Text) → ResultLeaves (length input) (export_value_at source_path input)
unfolding export_value_at export_quoted_value
export_value_at-Leaves source_path [] = export_unquoted_value-Leaves source_path []
export_value_at-Leaves source_path (c ∷ t) = elim (Bool-cases (is_quote c)) [
  | inl e ↦ rw e (
      ResultLeaves-weaken (length t) (length (c ∷ t)) (malformed source_path (split_once c t))
        (omega arith)
        (malformed-Leaves source_path (length t) (split_once c t) (split_once-Leaves c t)))
  | inr e ↦ rw e (export_unquoted_value-Leaves source_path (c ∷ t))
]

export_value-Leaves :
    (source_path input : Text) → ResultLeaves (length input) (export_value source_path input)
unfolding export_value trim_start
export_value-Leaves source_path [] = omega arith
export_value-Leaves source_path (c ∷ t) = elim (Bool-cases (c == b'=')) [
  | inl e ↦
      let behind = trim_start t in
      let trimmed = trim_start_matches-length is_whitespace t in
      rw e (
        ResultLeaves-weaken (length behind) (length (c ∷ t)) (export_value_at source_path behind)
          (omega arith) (export_value_at-Leaves source_path behind))
  | inr e ↦ rw e (omega arith)
]

abbrev with_name : Text → Text × Text → Exporting ((Text × Text) × Text)
with_name name (value, rest) = ok ((to_ascii_lowercase name, value), rest)

with_name-Leaves :
    (n : ℕ) (name : Text) (value : Exporting (Text × Text))
    → ResultLeaves n value
    → ResultLeaves n (value >>= with_name name)
with_name-Leaves n name (err e) h = tt
with_name-Leaves n name (ok (value, rest)) h = h

pub export_attribute-Leaves :
    (source_path : Text) (n : ℕ) (input : Text)
    → length input ≤ suc n
    → ResultLeaves n (export_attribute source_path input)
unfolding export_attribute trim_start
export_attribute-Leaves source_path n input le =
    let name = (export_name_at input).0 in
    let behind = trim_start (export_name_at input).1 in
    let parts = span-length (λ c. is_whitespace c || c == b'=') input in
    let trimmed = trim_start_matches-length is_whitespace (export_name_at input).1 in
    elim (Bool-cases (is_empty name || any is_bad_name_char name)) [
      | inl e ↦ rw e tt
      | inr e ↦
          let named = length-not_empty name (ground arith) in
          rw e (
            with_name-Leaves n name (export_value source_path behind) (
              ResultLeaves-weaken (length behind) n (export_value source_path behind) (omega arith)
                (export_value-Leaves source_path behind)))
    ]

pub more_attributes_enough :
    (n : ℕ) (attribute : Exporting ((Text × Text) × Text))
    (f g : Text → Exporting (List (Text × Text)))
    → ResultLeaves n attribute
    → ((rest : Text) → length rest ≤ n → f rest ≡ g rest)
    → elim attribute [ err e ↦ err e | ok (found, behind) ↦ more_attributes found (f behind) ]
      ≡ elim attribute [ err e ↦ err e | ok (found, behind) ↦ more_attributes found (g behind) ]
more_attributes_enough n (err e) f g short same = refl
more_attributes_enough n (ok (found, behind)) f g short same =
    ap (more_attributes found) (same behind short)

pub export_attributes_from_enough :
    (fuel more : ℕ) (source_path input : Text)
    → length input < fuel
    → length input < more
    → export_attributes_from fuel source_path input ≡ export_attributes_from more source_path input
unfolding export_attributes_from trim_start
export_attributes_from_enough zero more source_path input h k = absurd (omega arith)
export_attributes_from_enough (suc fuel) zero source_path input h k = absurd (omega arith)
export_attributes_from_enough (suc fuel) (suc more) source_path [] h k = refl
export_attributes_from_enough (suc fuel) (suc more) source_path (c ∷ t) h k =
    let rest = trim_start (c ∷ t) in
    let trimmed = trim_start_matches-length is_whitespace (c ∷ t) in
    elim (Bool-cases (is_empty rest || rest == codes "/")) [
      | inl e ↦ rw e refl
      | inr e ↦ rw e (
          more_attributes_enough (length t) (export_attribute source_path rest)
            (export_attributes_from fuel source_path) (export_attributes_from more source_path)
            (export_attribute-Leaves source_path (length t) rest (omega arith))
            (λ later short.
              export_attributes_from_enough fuel more source_path later (omega arith)
                (omega arith)))
    ]

text_before-Leaves :
    (n : ℕ) (before : Text) (r : Exporting (Text × Text))
    → ResultLeaves n r
    → ResultLeaves n (text_before before r)
text_before-Leaves n before (err e) h = tt
text_before-Leaves n before (ok (inner, next)) h = h

export_close_at-Leaves :
    (source_path tag_name before at : Text)
    → ResultLeaves (length at) (export_close_at source_path tag_name before at)
unfolding export_close_at
export_close_at-Leaves source_path tag_name before at =
    elim (Option-cases (tag_end none (drop 1 at))) [
      | inl e ↦ rw (e, export_close_at) tt
      | inr ((close_body, next), e) ↦
          let short = tag_end-length none (drop 1 at) close_body next e in
          let dropped = length-drop-le 1 at in
          elim (Bool-cases (closes (codes "/" ++ tag_name) (trim close_body))) [
            | inl f ↦ rw (e, export_close_at) (rw f (omega arith))
            | inr f ↦ rw (e, export_close_at) (rw f tt)
          ]
    ]

pub export_raw_text-Leaves :
    (fuel : ℕ) (source_path tag_name tail : Text)
    → ResultLeaves (length tail) (export_raw_text fuel source_path tag_name tail)
unfolding export_raw_text
export_raw_text-Leaves zero source_path tag_name tail = tt
export_raw_text-Leaves (suc fuel) source_path tag_name tail =
    let closing_prefix = codes "</" ++ tag_name in
    elim (Option-cases (find_lower closing_prefix tail)) [
      | inl e ↦ rw (e, export_raw_text) tt
      | inr ((before, at), e) ↦
          let size = find_lower-length b'<' (b'/' ∷ tag_name) tail before at e in
          let behind = drop (length closing_prefix) at in
          let dropped = length-drop-le (length closing_prefix) at in
          elim (Bool-cases (name_may_end behind)) [
            | inl f ↦
                rw (e, export_raw_text)
                  (rw f (
                    ResultLeaves-weaken (length at) (length tail)
                      (export_close_at source_path tag_name before at) (omega (arith, size.1))
                      (export_close_at-Leaves source_path tag_name before at)))
            | inr f ↦
                rw (e, export_raw_text)
                  (rw f (
                    text_before-Leaves (length tail) (before ++ take (length closing_prefix) at)
                      (export_raw_text fuel source_path tag_name behind)
                      (ResultLeaves-weaken (length behind) (length tail)
                        (export_raw_text fuel source_path tag_name behind) (omega (arith, size.1))
                        (export_raw_text-Leaves fuel source_path tag_name behind))))
          ]
    ]
