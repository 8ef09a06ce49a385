-- ===== src/StaticExport/References/Ends.antt =====
-- apps/local-server/src/static_export.rs: the search for declarations and sections, and its fuel.
use synapsegit_lp_studio.StaticExport.References.{
  Boundary, boundary_found, boundary_search, html_boundary_at, html_boundary_from,
}
use synapsegit_lp_studio.ChangeSet.Markup.RawText.{find_text-length, length-drop-le, length-drop-lt}
use synapsegit_lp_studio.Prelude.{
  Bool, Bool-cases, Option-cases, [], ap, arith, inl, inr, length, refl, suc, zero, ℕ, ◌<◌, ◌||◌,
  ◌∷◌, ◌≡◌, ◌≤◌,
}
use synapsegit_lp_studio.Prelude.Text.{
  Text, codes, drop, find_text, starts_with, to_ascii_lowercase,
}

abbrev pub SearchLeaves : ℕ → Boundary → Type 0
SearchLeaves n (boundary_found answer) = Unit
SearchLeaves n (boundary_search rest) = length rest ≤ n

pub html_boundary_at-Leaves :
    (n : ℕ) (at : Text) → 1 ≤ length at → length at ≤ suc n → SearchLeaves n (html_boundary_at at)
unfolding html_boundary_at
html_boundary_at-Leaves n at there le =
    let cut_comment = length-drop-lt 3 at there in
    let cut_doctype = length-drop-lt 14 at there in
    let cut_one = length-drop-lt 0 at there in
    elim (Bool-cases (starts_with at (codes "<?") || starts_with at (codes "<![cdata["))) [
      | inl e ↦ rw e tt
      | inr e ↦ elim (Bool-cases (starts_with at (codes "<!--"))) [
        | inl f ↦ elim (Option-cases (find_text (codes "-->") (drop 4 at))) [
          | inl g ↦ rw (e, f, g) tt
          | inr ((comment, close), g) ↦
              let size = find_text-length b'-' (codes "->") (drop 4 at) comment close g in
              let closed = length-drop-le 3 close in rw (e, f, g) (omega (arith, size.1))
        ]
        | inr f ↦ elim (Bool-cases (starts_with at (codes "<!doctype html>"))) [
          | inl g ↦ rw (e, f, g) (omega arith)
          | inr g ↦ elim (Bool-cases (starts_with at (codes "<!"))) [
            | inl i ↦ rw (e, f, g, i) tt
            | inr i ↦ rw (e, f, g, i) (omega arith)
          ]
        ]
      ]
    ]

pub search_enough :
    (n : ℕ) (boundary : Boundary) (f g : Text → Bool)
    → SearchLeaves n boundary
    → ((rest : Text) → length rest ≤ n → f rest ≡ g rest)
    → elim boundary [ boundary_found answer ↦ answer | boundary_search rest ↦ f rest ]
      ≡ elim boundary [ boundary_found answer ↦ answer | boundary_search rest ↦ g rest ]
search_enough n (boundary_found answer) f g short same = refl
search_enough n (boundary_search rest) f g short same = same rest short

pub html_boundary_from_enough :
    (fuel more : ℕ) (lower : Text)
    → length lower < fuel
    → length lower < more
    → html_boundary_from fuel lower ≡ html_boundary_from more lower
unfolding html_boundary_from
html_boundary_from_enough zero more lower h k = absurd (omega arith)
html_boundary_from_enough (suc fuel) zero lower h k = absurd (omega arith)
html_boundary_from_enough (suc fuel) (suc more) [] h k = refl
html_boundary_from_enough (suc fuel) (suc more) (c ∷ t) h k =
    elim (Option-cases (find_text (codes "<") (c ∷ t))) [
      | inl e ↦ rw (e, html_boundary_from) refl
      | inr ((before, at), e) ↦
          let size = find_text-length b'<' [] (c ∷ t) before at e in
          rw (e, html_boundary_from)
            (search_enough (length t) (html_boundary_at at) (html_boundary_from fuel)
              (html_boundary_from more)
              (html_boundary_at-Leaves (length t) at size.0 (omega (arith, size.1)))
              (λ rest short. html_boundary_from_enough fuel more rest (omega arith) (omega arith)))
    ]

pub length-to_ascii_lowercase : (t : Text) → length (to_ascii_lowercase t) ≡ length t
unfolding to_ascii_lowercase
length-to_ascii_lowercase [] = refl
length-to_ascii_lowercase (c ∷ t) = ap suc (length-to_ascii_lowercase t)
