-- ===== src/StaticExport/Scan/Loops.antt =====
-- apps/local-server/src/static_export.rs: the loops of `scan_references`, without their fuel.
use synapsegit_lp_studio.StaticExport.{CssReferenceScan, ExportTag}
use synapsegit_lp_studio.StaticExport.Tags.{
  export_attribute, export_attributes, export_attributes_from, export_raw_text, export_round,
  export_tags, export_tags_from, malformed, more_attributes, more_tags, text_before,
  export_close_at,
}
use synapsegit_lp_studio.StaticExport.Css.{
  css_from, css_gives_up, css_goes_on, css_round, css_unknown, with_found,
}
use synapsegit_lp_studio.StaticExport.Rests.{ResultLeaves}
use synapsegit_lp_studio.StaticExport.Css.Ends.{
  CssLeaves, css_from_enough, css_next_enough, css_round-Leaves,
}
use synapsegit_lp_studio.StaticExport.Tags.Ends.{
  export_attribute-Leaves, export_attributes_from_enough, more_attributes_enough,
}
use synapsegit_lp_studio.StaticExport.Tags.Rounds.{
  RoundLeaves, export_round-Leaves, export_tags_from_enough, more_tags_enough,
}
use synapsegit_lp_studio.ChangeSet.Markup.{
  find_lower, joined_before, name_may_end, raw_text_element_bounds, closes, is_tag_name_byte,
  tag_end,
}
use synapsegit_lp_studio.ChangeSet.Markup.Attributes.{trim_start_matches-length}
use synapsegit_lp_studio.StaticExport.References.{
  boundary_found, boundary_search, html_boundary_at, html_boundary_from,
  html_tokenizer_boundary_analysis_incomplete,
}
use synapsegit_lp_studio.StaticExport.References.Ends.{
  SearchLeaves, html_boundary_at-Leaves, html_boundary_from_enough, search_enough,
  length-to_ascii_lowercase,
}
use synapsegit_lp_studio.ChangeSet.Markup.RawText.{close_at, find_text-length}
use synapsegit_lp_studio.ChangeSet.Markup.FirstEnd.{
  closed_by, first_end, raw_text_element_bounds_lem,
}
use synapsegit_lp_studio.Prelude.{
  Bool, Bool-cases, List, Option, Option-cases, [], all, ap, arith, err, false, if◌then◌else◌, inl,
  inr, length, list_eq, nat_eq, none, ok, refl, some, subst, suc, sym, true, zero, ℕ, ◌++◌, ◌+◌,
  ◌<◌, ◌==◌, ◌||◌, ◌∙◌, ◌∷◌, ◌≡◌,
}
use synapsegit_lp_studio.Prelude.Text.{
  Text, codes, drop, find_text, is_empty, is_whitespace, span, take, to_ascii_lowercase, trim,
  trim_start,
}

-- What one round of the loop over a markup file makes of the rounds behind it.
abbrev pub TagsLoop : Text → Bool → Text → Type 0
TagsLoop source_path html_mode text =
    (export_tags source_path html_mode text ≡ elim (export_round source_path html_mode text) [
      | err e ↦ err e
      | ok (tags, none) ↦ ok tags
      | ok (tags, some rest) ↦ more_tags tags (export_tags source_path html_mode rest)
    ])
    × ((tags : List ExportTag) (rest : Text)
        → export_round source_path html_mode text ≡ ok (tags, some rest)
        → length rest < length text)

tags_loop :
    (source_path : Text) (html_mode : Bool) (text : Text) → TagsLoop source_path html_mode text
unfolding export_tags export_tags_from export_round
tags_loop source_path html_mode [] = (refl, λ tags rest h. cc)
tags_loop source_path html_mode (c ∷ t) =
    let leaves = export_round-Leaves source_path html_mode c t in
    (
      export_tags_from_enough (length (c ∷ t) + 1) (suc (length (c ∷ t))) source_path html_mode
            (c ∷ t) (omega arith) (omega arith)
          ∙ more_tags_enough (length t) (export_round source_path html_mode (c ∷ t))
              (export_tags_from (length (c ∷ t)) source_path html_mode)
              (export_tags source_path html_mode) leaves
              (λ rest short.
                export_tags_from_enough (length (c ∷ t)) (length rest + 1) source_path html_mode
                  rest (omega arith) (omega arith)),
      λ tags rest h. let short = subst (RoundLeaves (length t)) h leaves in omega (arith, short),
    )

-- The attributes of a tag.
abbrev pub AttributesLoop : Text → Text → Type 0
AttributesLoop source_path input =
    (export_attributes source_path input ≡ (
      let rest = trim_start input in
      if is_empty rest || rest == codes "/"
      then ok []
      else elim (export_attribute source_path rest) [
        | err e ↦ err e
        | ok (found, behind) ↦ more_attributes found (export_attributes source_path behind)
      ]))
    × ((found : Text × Text) (behind : Text)
        → export_attribute source_path (trim_start input) ≡ ok (found, behind)
        → length behind < length input)

no_attribute :
    (source_path : Text) (found : Text × Text) (behind : Text)
    → export_attribute source_path [] ≡ ok (found, behind)
    → length behind < 0
unfolding export_attribute span
no_attribute source_path found behind h = cc

attributes_loop : (source_path input : Text) → AttributesLoop source_path input
unfolding export_attributes export_attributes_from trim_start
attributes_loop source_path [] = (refl, no_attribute source_path)
attributes_loop source_path (c ∷ t) =
    let rest = trim_start (c ∷ t) in
    let trimmed = trim_start_matches-length is_whitespace (c ∷ t) in
    let leaves = export_attribute-Leaves source_path (length t) rest (omega arith) in
    (
      export_attributes_from_enough (length (c ∷ t) + 1) (suc (length (c ∷ t))) source_path (c ∷ t)
            (omega arith) (omega arith)
          ∙ ap (λ more. if is_empty rest || rest == codes "/" then ok [] else more)
              (more_attributes_enough (length t) (export_attribute source_path rest)
                (export_attributes_from (length (c ∷ t)) source_path)
                (export_attributes source_path) leaves
                (λ later short.
                  export_attributes_from_enough (length (c ∷ t)) (length later + 1) source_path
                    later (omega arith) (omega arith))),
      λ found behind h.
          let short = subst (ResultLeaves (length t)) h leaves in omega (arith, short),
    )

-- A style sheet, from a character on that stands behind another.
abbrev pub css_scan : Option ℕ → Text → CssReferenceScan
css_scan previous text = css_from (length text + 1) previous text

abbrev pub CssLoop : Option ℕ → ℕ → Text → Type 0
CssLoop previous c t =
    (css_scan previous (c ∷ t) ≡ elim (css_round previous c t) [
      | css_gives_up ↦ css_unknown
      | css_goes_on found last rest ↦ with_found found (css_scan (some last) rest)
    ])
    × ((found : List Text) (last : ℕ) (rest : Text)
        → css_round previous c t ≡ css_goes_on found last rest
        → length rest < length (c ∷ t))

css_loop : (previous : Option ℕ) (c : ℕ) (t : Text) → CssLoop previous c t
unfolding css_from
css_loop previous c t =
    let leaves = css_round-Leaves previous c t in
    (
      css_from_enough (length (c ∷ t) + 1) (suc (length (c ∷ t))) previous (c ∷ t) (omega arith)
            (omega arith)
          ∙ css_next_enough (length t) (css_round previous c t) (css_from (length (c ∷ t))) css_scan
              leaves
              (λ last rest short.
                css_from_enough (length (c ∷ t)) (length rest + 1) last rest (omega arith)
                  (omega arith)),
      λ found last rest h.
          let short = subst (CssLeaves (length t)) h leaves in omega (arith, short),
    )

close_of_bounds :
    (source_path name before at : Text)
    → export_close_at source_path name before at ≡ malformed source_path (close_at name before at)
unfolding export_close_at
close_of_bounds source_path name before at = elim (Option-cases (tag_end none (drop 1 at))) [
  | inl e ↦ rw (e, export_close_at, close_at) refl
  | inr ((close_body, next), e) ↦ elim (Bool-cases (closes (codes "/" ++ name) (trim close_body))) [
    | inl f ↦ rw (e, export_close_at, close_at) (rw f refl)
    | inr f ↦ rw (e, export_close_at, close_at) (rw f refl)
  ]
]

raw_text_of_bounds :
    (fuel : ℕ) (source_path name tail : Text)
    → export_raw_text fuel source_path name tail
      ≡ malformed source_path (raw_text_element_bounds fuel name tail)
unfolding export_raw_text raw_text_element_bounds
raw_text_of_bounds zero source_path name tail = refl
raw_text_of_bounds (suc fuel) source_path name tail =
    elim (Option-cases (find_lower (codes "</" ++ name) tail)) [
      | inl e ↦ rw (e, export_raw_text, raw_text_element_bounds) refl
      | inr ((before, at), e) ↦
          let behind : Text = drop (length (codes "</" ++ name)) at in
          let taken = before ++ take (length (codes "</" ++ name)) at in
          rw (e, export_raw_text, raw_text_element_bounds)
            (elim (Bool-cases (name_may_end behind)) [
              | inl may ↦ rw may (close_of_bounds source_path name before at)
              | inr longer ↦ rw longer (
                  ap (text_before taken) (raw_text_of_bounds fuel source_path name behind)
                  ∙ before_of_bounds source_path taken (raw_text_element_bounds fuel name behind))
            ])
    ]
  where
    before_of_bounds :
        (source_path taken : Text) (o : Option (Text × Text))
        → text_before taken (malformed source_path o)
          ≡ malformed source_path (joined_before taken o)
    before_of_bounds source_path taken none = refl
    before_of_bounds source_path taken (some (inner, next)) = refl

-- The raw text of an element is what stands before the first place where an end tag of it begins.
abbrev pub RawTextEnds : Text → Text → Text → Type 0
RawTextEnds source_path name text =
    export_raw_text (length text + 1) source_path name text
    ≡ malformed source_path (closed_by name (first_end name text))

-- The declarations of an HTML file, in lower case.
abbrev pub boundary_scan : Text → Bool
boundary_scan lower = html_boundary_from (length lower + 1) lower

abbrev pub BoundaryLoop : Text → Type 0
BoundaryLoop lower =
    (boundary_scan lower ≡ elim (find_text (codes "<") lower) [
      | none ↦ false
      | some (before, at) ↦ elim (html_boundary_at at) [
        | boundary_found answer ↦ answer
        | boundary_search rest ↦ boundary_scan rest
      ]
    ])
    × ((before at rest : Text)
        → find_text (codes "<") lower ≡ some (before, at)
        → html_boundary_at at ≡ boundary_search rest
        → length rest < length lower)

boundary_leaves :
    (c : ℕ) (t before at : Text)
    → find_text (codes "<") (c ∷ t) ≡ some (before, at)
    → SearchLeaves (length t) (html_boundary_at at)
boundary_leaves c t before at e =
    let size = find_text-length b'<' [] (c ∷ t) before at e in
    html_boundary_at-Leaves (length t) at size.0 (omega (arith, size.1))

boundary_step :
    (c : ℕ) (t : Text)
    → html_boundary_from (suc (length (c ∷ t))) (c ∷ t) ≡ elim (find_text (codes "<") (c ∷ t)) [
      | none ↦ false
      | some (before, at) ↦ elim (html_boundary_at at) [
        | boundary_found answer ↦ answer
        | boundary_search rest ↦ boundary_scan rest
      ]
    ]
unfolding html_boundary_from
boundary_step c t = elim (Option-cases (find_text (codes "<") (c ∷ t))) [
  | inl e ↦ rw (e, html_boundary_from) refl
  | inr ((before, at), e) ↦
      rw (e, html_boundary_from)
        (search_enough (length t) (html_boundary_at at) (html_boundary_from (length (c ∷ t)))
          boundary_scan (boundary_leaves c t before at e)
          (λ rest short.
            html_boundary_from_enough (length (c ∷ t)) (length rest + 1) rest (omega arith)
              (omega arith)))
]

boundary_loop : (lower : Text) → BoundaryLoop lower
unfolding html_boundary_from find_text
boundary_loop [] = (refl, λ before at rest h k. cc)
boundary_loop (c ∷ t) = (
  html_boundary_from_enough (length (c ∷ t) + 1) (suc (length (c ∷ t))) (c ∷ t) (omega arith)
        (omega arith)
      ∙ boundary_step c t,
  λ before at rest e h.
      let short = subst (SearchLeaves (length t)) h (boundary_leaves c t before at e) in
      omega (arith, short),
)

-- Each loop of a scan is its rounds, and each round leaves less text than it had, so that no scan goes
-- on for ever or is cut short by its fuel: the loops over the tags of a markup file, the attributes of
-- a tag, the rules of a style sheet, and the declarations of an HTML file. The text of a raw text
-- element, whose name has only characters of a tag's name, is what stands before the first end tag of
-- it, and is refused as malformed if there is none that is well formed.
pub scan_loops_lem :
    (source_path name text : Text) (html_mode : Bool) (previous : Option ℕ) (c : ℕ)
    → all is_tag_name_byte name ≡ true
    → TagsLoop source_path html_mode text
      × AttributesLoop source_path text
      × CssLoop previous c text
      × (html_tokenizer_boundary_analysis_incomplete text ≡ boundary_scan (to_ascii_lowercase text))
      × BoundaryLoop (to_ascii_lowercase text)
      × RawTextEnds source_path name text
unfolding html_tokenizer_boundary_analysis_incomplete
scan_loops_lem source_path name text html_mode previous c bytes = (
  tags_loop source_path html_mode text,
  attributes_loop source_path text,
  css_loop previous c text,
  ap (λ n. html_boundary_from (n + 1) (to_ascii_lowercase text))
      (sym (length-to_ascii_lowercase text)),
  boundary_loop (to_ascii_lowercase text),
  raw_text_of_bounds (length text + 1) source_path name text
      ∙ ap (malformed source_path) (raw_text_element_bounds_lem name text bytes),
)
