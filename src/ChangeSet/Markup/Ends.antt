-- ===== src/ChangeSet/Markup/Ends.antt =====
-- apps/local-server/src/change_set.rs: the loops of the scanner for markup, and their fuel.
use synapsegit_lp_studio.ChangeSet.Markup.{
  tag_end, raw_text_element_bounds, MarkupTag, behavior_raw_text_element, scan_element,
  parse_tag_body, scan_at, scan_from, scan_markup_tags, scan_round,
}
use synapsegit_lp_studio.ChangeSet.Types.{Crates}
use synapsegit_lp_studio.ChangeSet.Markup.RawText.{
  find_text-length, length-drop-le, length-drop-lt, raw_text_element_bounds-length, tag_end-length,
}
use synapsegit_lp_studio.Prelude.{
  Bool, Bool-cases, Option-cases, [], ap, arith, inl, inr, length, list_eq, nat_eq, none, not, refl,
  some, suc, sym, zero, ℕ, ◌&&◌, ◌++◌, ◌+◌, ◌<◌, ◌==◌, ◌∙◌, ◌≡◌, ◌≤◌,
}
use synapsegit_lp_studio.Prelude.Text.{Text, codes, drop, find_text, starts_with, trim}

scan_element-length :
    (crates : Crates) (html_mode : Bool) (tag : MarkupTag) (text rest : Text)
    → (scan_element crates html_mode tag text).1 ≡ some rest
    → length rest ≤ length text
unfolding scan_element
scan_element-length crates html_mode tag text rest h =
    elim (Bool-cases (not tag.closing && html_mode && tag.name == codes "plaintext")) [
      | inl stops ↦ absurd (ground arith)
      | inr goes_on ↦
          elim (Bool-cases (not tag.closing && behavior_raw_text_element tag.name html_mode)) [
            | inl raw ↦
                elim (Option-cases (raw_text_element_bounds (length text + 1) tag.name text)) [
                  | inl e ↦ absurd (ground arith)
                  | inr ((inner, next), e) ↦
                      let short =
                        raw_text_element_bounds-length (length text + 1) tag.name text inner next
                          e in
                      let next_is : next ≡ rest = ground arith in rw (sym next_is) short
                ]
            | inr ordinary ↦
                let text_is : text ≡ rest = ground arith in rw (sym text_is) (omega arith)
          ]
    ]

scan_at-length :
    (crates : Crates) (html_mode : Bool) (at rest : Text)
    → 1 ≤ length at
    → (scan_at crates html_mode at).1 ≡ some rest
    → length rest < length at
unfolding scan_at
scan_at-length crates html_mode at rest there h =
    elim (Bool-cases (starts_with at (codes "<!--"))) [
      | inl comment ↦ elim (Option-cases (find_text (codes "-->") (drop 4 at))) [
        | inl e ↦ absurd (ground arith)
        | inr ((inside, close), e) ↦
            let size = find_text-length b'-' (codes "->") (drop 4 at) inside close e in
            let dropped = length-drop-lt 3 at there in
            let closed = length-drop-le 3 close in
            let rest_is : rest ≡ drop 3 close = ground arith in rw rest_is (omega (arith, size.1))
      ]
      | inr tag_here ↦ elim (Option-cases (tag_end none (drop 1 at))) [
        | inl e ↦ absurd (ground arith)
        | inr ((body, behind), e) ↦
            let size = tag_end-length none (drop 1 at) body behind e in
            let dropped = length-drop-le 1 at in
            elim (Option-cases (parse_tag_body (trim body))) [
              | inl f ↦ let rest_is : rest ≡ behind = ground arith in rw rest_is (omega arith)
              | inr (tag, f) ↦
                  let short = scan_element-length crates html_mode tag behind rest (ground arith) in
                  omega arith
            ]
      ]
    ]

scan_round-length :
    (crates : Crates) (html_mode : Bool) (text rest : Text)
    → (scan_round crates html_mode text).1 ≡ some rest
    → length rest < length text
unfolding scan_round
scan_round-length crates html_mode text rest h = elim (Option-cases (find_text (codes "<") text)) [
  | inl e ↦ absurd (ground arith)
  | inr ((before, at), e) ↦
      let size = find_text-length b'<' [] text before at e in
      let short = scan_at-length crates html_mode at rest size.0 (ground arith) in
      omega (arith, size.1)
]

-- More fuel than the text is long gives the tags that any such fuel gives.
scan_from_enough :
    (fuel more : ℕ) (crates : Crates) (html_mode : Bool) (text : Text)
    → length text < fuel
    → length text < more
    → scan_from fuel crates html_mode text ≡ scan_from more crates html_mode text
unfolding scan_from
scan_from_enough zero more crates html_mode text h k = absurd (omega arith)
scan_from_enough (suc fuel) zero crates html_mode text h k = absurd (omega arith)
scan_from_enough (suc fuel) (suc more) crates html_mode text h k =
    elim (Option-cases (scan_round crates html_mode text).1) [
      | inl e ↦ rw e refl
      | inr (rest, e) ↦
          let short = scan_round-length crates html_mode text rest e in
          rw e (
            ap (λ tags. (scan_round crates html_mode text).0 ++ tags)
              (scan_from_enough fuel more crates html_mode rest (omega arith) (omega arith)))
    ]

scan_loop :
    (crates : Crates) (text : Text) (html_mode : Bool)
    → scan_from (suc (length text)) crates html_mode text
      ≡ (scan_round crates html_mode text).0 ++ elim (scan_round crates html_mode text).1 [
        | none ↦ []
        | some rest ↦ scan_from (length rest + 1) crates html_mode rest
      ]
unfolding scan_from
scan_loop crates text html_mode = elim (Option-cases (scan_round crates html_mode text).1) [
  | inl e ↦ rw e refl
  | inr (rest, e) ↦
      let short = scan_round-length crates html_mode text rest e in
      rw e (
        ap (λ tags. (scan_round crates html_mode text).0 ++ tags)
          (scan_from_enough (length text) (length rest + 1) crates html_mode rest (omega arith)
            (omega arith)))
]

-- The scan is its loop: the tags of a round, and, if the round leaves a rest, the tags of the rest,
-- which is shorter. The fuel ends no scan.
pub scan_markup_tags_lem :
    (crates : Crates) (text : Text) (html_mode : Bool)
    → let round = scan_round crates html_mode text in
      (scan_markup_tags crates text html_mode
        ≡ round.0
          ++ elim round.1 [ none ↦ [] | some rest ↦ scan_markup_tags crates rest html_mode ])
      × ((rest : Text) → round.1 ≡ some rest → length rest < length text)
unfolding scan_markup_tags
scan_markup_tags_lem crates text html_mode = (
  scan_from_enough (length text + 1) (suc (length text)) crates html_mode text (omega arith)
        (omega arith)
      ∙ scan_loop crates text html_mode,
  scan_round-length crates html_mode text,
)
