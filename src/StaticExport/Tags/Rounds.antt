-- ===== src/StaticExport/Tags/Rounds.antt =====
-- apps/local-server/src/static_export.rs: the rounds of the scanner for markup, and their fuel.
use synapsegit_lp_studio.StaticExport.{ExportTag, Exporting}
use synapsegit_lp_studio.StaticExport.Tags.{
  ExportRound, export_at, export_element, export_raw_text, export_round, export_skip, export_tag_at,
  export_tag_body, export_tags_from, looks_like_markup, more_tags, with_raw_body,
}
use synapsegit_lp_studio.StaticExport.Rests.{ResultLeaves}
use synapsegit_lp_studio.StaticExport.Tags.Ends.{export_raw_text-Leaves}
use synapsegit_lp_studio.ChangeSet.Markup.{behavior_raw_text_element, tag_end}
use synapsegit_lp_studio.ChangeSet.Markup.RawText.{
  find_text-length, length-drop-le, length-drop-lt, tag_end-length,
}
use synapsegit_lp_studio.Prelude.{
  Bool, Bool-cases, List, Option, Option-cases, [], ap, arith, err, inl, inr, length, list_eq,
  nat_eq, none, not, ok, refl, some, suc, zero, ℕ, ◌&&◌, ◌+◌, ◌<◌, ◌==◌, ◌>>=◌, ◌∷◌, ◌≡◌, ◌≤◌,
}
use synapsegit_lp_studio.Prelude.Text.{Text, codes, drop, find_text, starts_with, trim}

abbrev pub RoundLeaves : ℕ → ExportRound → Type 0
RoundLeaves n (err e) = Unit
RoundLeaves n (ok (tags, none)) = Unit
RoundLeaves n (ok (tags, some rest)) = length rest ≤ n

RoundLeaves-weaken : (m n : ℕ) (r : ExportRound) → m ≤ n → RoundLeaves m r → RoundLeaves n r
RoundLeaves-weaken m n (err e) le h = tt
RoundLeaves-weaken m n (ok (tags, none)) le h = tt
RoundLeaves-weaken m n (ok (tags, some rest)) le h = omega arith

bind-Leaves :
    {A : Type 0} (n : ℕ) (r : Exporting A) (k : A → ExportRound)
    → ((a : A) → r ≡ ok a → RoundLeaves n (k a))
    → RoundLeaves n (r >>= k)
bind-Leaves n (err e) k h = tt
bind-Leaves n (ok a) k h = h a refl

raw_body-Leaves :
    (n : ℕ) (tag : ExportTag) (body : Exporting (Text × Text))
    → ResultLeaves n body
    → RoundLeaves n (body >>= λ b. ok (with_raw_body tag b.0 ∷ [], some b.1))
raw_body-Leaves n tag (err e) h = tt
raw_body-Leaves n tag (ok (inner, next)) h = h

export_element-Leaves :
    (source_path : Text) (html_mode : Bool) (tag : ExportTag) (rest : Text)
    → RoundLeaves (length rest) (export_element source_path html_mode tag rest)
unfolding export_element
export_element-Leaves source_path html_mode tag rest =
    elim (Bool-cases (not tag.closing && html_mode && tag.name == codes "plaintext")) [
      | inl e ↦ rw e tt
      | inr e ↦
          elim (Bool-cases (not tag.closing && behavior_raw_text_element tag.name html_mode)) [
            | inl f ↦
                rw (e, f)
                  (raw_body-Leaves (length rest) tag
                    (export_raw_text (length rest + 1) source_path tag.name rest)
                    (export_raw_text-Leaves (length rest + 1) source_path tag.name rest))
            | inr f ↦ rw (e, f) (omega arith)
          ]
    ]

export_skip-Leaves :
    (source_path : Text) (p : ℕ) (ps : Text) (n : ℕ) (inner : Text)
    → RoundLeaves (length inner) (export_skip source_path (p ∷ ps) n inner)
unfolding export_skip
export_skip-Leaves source_path p ps n inner = elim (Option-cases (find_text (p ∷ ps) inner)) [
  | inl e ↦ rw (e, export_skip) tt
  | inr ((skipped, close), e) ↦
      let size = find_text-length p ps inner skipped close e in
      let closed = length-drop-le n close in rw (e, export_skip) (omega (arith, size.1))
]

found_tag-Leaves :
    (source_path : Text) (html_mode : Bool) (n : ℕ) (rest : Text) (found : Option ExportTag)
    → length rest ≤ n
    → RoundLeaves n (elim found [
      | none ↦ ok ([], some rest)
      | some tag ↦ export_element source_path html_mode tag rest
    ])
found_tag-Leaves source_path html_mode n rest none le = le
found_tag-Leaves source_path html_mode n rest (some tag) le =
    RoundLeaves-weaken (length rest) n (export_element source_path html_mode tag rest) le
      (export_element-Leaves source_path html_mode tag rest)

export_tag_at-Leaves :
    (source_path : Text) (html_mode : Bool) (inner : Text)
    → RoundLeaves (length inner) (export_tag_at source_path html_mode inner)
unfolding export_tag_at
export_tag_at-Leaves source_path html_mode inner = elim (Option-cases (tag_end none inner)) [
  | inl e ↦ elim (Bool-cases (looks_like_markup inner)) [
    | inl f ↦ rw (e, export_tag_at) (rw f tt)
    | inr f ↦ rw (e, export_tag_at) (rw f (omega arith))
  ]
  | inr ((body, rest), e) ↦
      let short = tag_end-length none inner body rest e in
      rw (e, export_tag_at)
        (bind-Leaves (length inner) (export_tag_body source_path (trim body)) _ (λ found read.
          found_tag-Leaves source_path html_mode (length inner) rest found (omega arith)))
]

export_at-Leaves :
    (source_path : Text) (html_mode : Bool) (n : ℕ) (at : Text)
    → 1 ≤ length at
    → length at ≤ suc n
    → RoundLeaves n (export_at source_path html_mode at)
unfolding export_at
export_at-Leaves source_path html_mode n at there le =
    let cut_comment = length-drop-lt 3 at there in
    let cut_section = length-drop-lt 8 at there in
    let cut_instruction = length-drop-lt 1 at there in
    let cut_one = length-drop-lt 0 at there in
    elim (Bool-cases (starts_with at (codes "<!--"))) [
      | inl e ↦ rw e (
          RoundLeaves-weaken (length (drop 4 at)) n
            (export_skip source_path (codes "-->") 3 (drop 4 at)) (omega arith)
            (export_skip-Leaves source_path b'-' (codes "->") 3 (drop 4 at)))
      | inr e ↦ elim (Bool-cases (starts_with at (codes "<![CDATA["))) [
        | inl f ↦
            rw (e, f)
              (RoundLeaves-weaken (length (drop 9 at)) n
                (export_skip source_path (codes "]]>") 3 (drop 9 at)) (omega arith)
                (export_skip-Leaves source_path b']' (codes "]>") 3 (drop 9 at)))
        | inr f ↦ elim (Bool-cases (not html_mode && starts_with at (codes "<?"))) [
          | inl g ↦
              rw (e, f, g)
                (RoundLeaves-weaken (length (drop 2 at)) n
                  (export_skip source_path (codes "?>") 2 (drop 2 at)) (omega arith)
                  (export_skip-Leaves source_path b'?' (codes ">") 2 (drop 2 at)))
          | inr g ↦
              rw (e, f, g)
                (RoundLeaves-weaken (length (drop 1 at)) n
                  (export_tag_at source_path html_mode (drop 1 at)) (omega arith)
                  (export_tag_at-Leaves source_path html_mode (drop 1 at)))
        ]
      ]
    ]

pub more_tags_enough :
    (n : ℕ) (round : ExportRound) (f g : Text → Exporting (List ExportTag))
    → RoundLeaves n round
    → ((rest : Text) → length rest ≤ n → f rest ≡ g rest)
    → elim round [
      | err e ↦ err e
      | ok (tags, none) ↦ ok tags
      | ok (tags, some rest) ↦ more_tags tags (f rest)
    ]
      ≡ elim round [
        | err e ↦ err e
        | ok (tags, none) ↦ ok tags
        | ok (tags, some rest) ↦ more_tags tags (g rest)
      ]
more_tags_enough n (err e) f g short same = refl
more_tags_enough n (ok (tags, none)) f g short same = refl
more_tags_enough n (ok (tags, some rest)) f g short same = ap (more_tags tags) (same rest short)

pub export_round-Leaves :
    (source_path : Text) (html_mode : Bool) (c : ℕ) (t : Text)
    → RoundLeaves (length t) (export_round source_path html_mode (c ∷ t))
unfolding export_round
export_round-Leaves source_path html_mode c t =
    elim (Option-cases (find_text (codes "<") (c ∷ t))) [
      | inl e ↦ rw (e, export_round) tt
      | inr ((before, at), e) ↦
          let size = find_text-length b'<' [] (c ∷ t) before at e in
          rw (e, export_round)
            (export_at-Leaves source_path html_mode (length t) at size.0 (omega (arith, size.1)))
    ]

pub export_tags_from_enough :
    (fuel more : ℕ) (source_path : Text) (html_mode : Bool) (text : Text)
    → length text < fuel
    → length text < more
    → export_tags_from fuel source_path html_mode text
      ≡ export_tags_from more source_path html_mode text
unfolding export_tags_from export_round
export_tags_from_enough zero more source_path html_mode text h k = absurd (omega arith)
export_tags_from_enough (suc fuel) zero source_path html_mode text h k = absurd (omega arith)
export_tags_from_enough (suc fuel) (suc more) source_path html_mode [] h k = refl
export_tags_from_enough (suc fuel) (suc more) source_path html_mode (c ∷ t) h k =
    more_tags_enough (length t) (export_round source_path html_mode (c ∷ t))
      (export_tags_from fuel source_path html_mode) (export_tags_from more source_path html_mode)
      (export_round-Leaves source_path html_mode c t)
      (λ rest short.
        export_tags_from_enough fuel more source_path html_mode rest (omega arith) (omega arith))
