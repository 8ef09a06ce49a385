-- ===== src/StaticExport/Rests.antt =====
-- apps/local-server/src/static_export.rs: how much of its input a reader leaves.
use synapsegit_lp_studio.StaticExport.{Exporting}
use synapsegit_lp_studio.StaticExport.Tags.{malformed}
use synapsegit_lp_studio.ChangeSet.Markup.Attributes.{split_once-length}
use synapsegit_lp_studio.Prelude.{
  Option, Option-cases, arith, err, inl, inr, length, none, ok, some, ℕ, ◌≤◌,
}
use synapsegit_lp_studio.Prelude.Text.{Text, split_once}

-- A reader that stops leaves no rest; one that goes on leaves at most so many characters.
abbrev pub Leaves : ℕ → Option (Text × Text) → Type 0
Leaves n none = Unit
Leaves n (some (value, rest)) = length rest ≤ n

abbrev pub ResultLeaves : {A : Type 0} → ℕ → Exporting (A × Text) → Type 0
ResultLeaves n (err e) = Unit
ResultLeaves n (ok (value, rest)) = length rest ≤ n

pub Leaves-weaken : (m n : ℕ) (o : Option (Text × Text)) → m ≤ n → Leaves m o → Leaves n o
Leaves-weaken m n none le h = tt
Leaves-weaken m n (some (value, rest)) le h = omega arith

pub ResultLeaves-weaken :
    {A : Type 0} (m n : ℕ) (r : Exporting (A × Text)) → m ≤ n → ResultLeaves m r → ResultLeaves n r
ResultLeaves-weaken m n (err e) le h = tt
ResultLeaves-weaken m n (ok (value, rest)) le h = omega arith

pub split_once-Leaves : (sep : ℕ) (t : Text) → Leaves (length t) (split_once sep t)
split_once-Leaves sep t = elim (Option-cases (split_once sep t)) [
  | inl e ↦ rw e tt
  | inr ((value, rest), e) ↦ rw e (split_once-length sep t value rest e)
]

pub malformed-Leaves :
    (source_path : Text) (n : ℕ) (o : Option (Text × Text))
    → Leaves n o
    → ResultLeaves n (malformed source_path o)
malformed-Leaves source_path n none h = tt
malformed-Leaves source_path n (some (value, rest)) h = h
