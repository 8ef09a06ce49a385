-- ===== src/Storage/Disk/Effects.antt =====
-- apps/local-server/src/storage.rs: what each effect on the disk does and leaves, as rules.
use synapsegit_lp_studio.Storage.Paths.{Stored}
use synapsegit_lp_studio.Storage.Disk.{
  Disk, Fate, Slot, act, act_tree, error_of_disk, failed, fails, happens, is_vacant, moved, ran,
  read, removal, remove_internal_tree_if_present, rename_internal, stops, tree_at, with_tree,
  exists, succeeds,
}
use synapsegit_lp_studio.Storage.Disk.Triple.{Post, Triple, cons_not_empty, result-Post}
use synapsegit_lp_studio.ChangeSet.Types.{Files}
use synapsegit_lp_studio.Prelude.{
  Bool, List, Option, Option-cases, [], arith, false, if◌then◌else◌, inl, inr, is_some, none, ok,
  some, subst, sym, true, ◌&&◌, ◌∷◌, ◌≡◌,
}

pub act-Triple :
    {strict : Bool} {P Q E : Disk → Type 0} (f : Disk → Disk)
    → ((d : Disk) → P d → Q (f d))
    → ((d : Disk) → P d → E d)
    → ((d : Disk) → P d → E (f d))
    → Triple strict P (λ u. Q) E (act f)
unfolding act
act-Triple {strict} {P} {Q} {E} f good early behind = record { runs = cases }
  where
    cases :
        (fates : List Fate) (d : Disk)
        → P d
        → Post strict (λ (u : Unit {0}). Q) E fates (act f fates d)
    cases [] d p = record { held = (good d p, λ e. e) }
    cases (happens ∷ fates) d p = record {
      held = (good d p, λ e. absurd (cons_not_empty happens fates e));
    }
    cases (fails true left ∷ fates) d p = record {
      held = (behind d p, λ s. cons_not_empty _ fates);
    }
    cases (fails false left ∷ fates) d p = record {
      held = (early d p, λ s. cons_not_empty _ fates);
    }
    cases (stops true left ∷ fates) d p = record {
      held = (behind d p, λ s. cons_not_empty _ fates);
    }
    cases (stops false left ∷ fates) d p = record {
      held = (early d p, λ s. cons_not_empty _ fates);
    }

pub act_tree-Post :
    {strict : Bool} {Q E : Disk → Type 0} (slot : Slot) (t : Option Files) (fates : List Fate)
    (d : Disk)
    → Q (with_tree slot t d)
    → ((left : Option Files) → E (with_tree slot left d))
    → Post strict (λ (u : Unit {0}). Q) E fates (act_tree slot t fates d)
unfolding act_tree
act_tree-Post slot t [] d good bad = record { held = (good, λ e. e) }
act_tree-Post slot t (happens ∷ fates) d good bad = record {
  held = (good, λ e. absurd (cons_not_empty happens fates e));
}
act_tree-Post slot t (fails behind left ∷ fates) d good bad = record {
  held = (bad left, λ s. cons_not_empty _ fates);
}
act_tree-Post slot t (stops behind left ∷ fates) d good bad = record {
  held = (bad left, λ s. cons_not_empty _ fates);
}

pub read-Triple :
    {A : Type 0} {strict : Bool} {P E : Disk → Type 0} {Q : A → Disk → Type 0} (f : Disk → Stored A)
    → ((d : Disk) → P d → (a : A) × (f d ≡ ok a) × Q a d)
    → ((d : Disk) → P d → E d)
    → Triple strict P Q E (read f)
unfolding read
read-Triple {A} {strict} {P} {E} {Q} f good bad = record { runs = cases }
  where
    cases : (fates : List Fate) (d : Disk) → P d → Post strict Q E fates (read f fates d)
    cases [] d p = let (a, e, q) = good d p in result-Post (f d) a [] d e q (λ h. h)
    cases (happens ∷ fates) d p =
        let (a, e, q) = good d p in
        result-Post (f d) a fates d e q (λ h. absurd (cons_not_empty happens fates h))
    cases (fails behind left ∷ fates) d p = record { held = (bad d p, λ s. cons_not_empty _ fates) }
    cases (stops behind left ∷ fates) d p = record { held = (bad d p, λ s. cons_not_empty _ fates) }

pub remove_tree-Triple :
    {strict : Bool} {P Q E : Disk → Type 0} (slot : Slot)
    → ((d : Disk) → P d → tree_at slot d ≡ none → Q d)
    → ((d : Disk) (t : Files) → P d → tree_at slot d ≡ some t → Q (with_tree slot none d))
    → ((d : Disk) (t : Files) (left : Option Files)
        → P d
        → tree_at slot d ≡ some t
        → E (with_tree slot left d))
    → Triple strict P (λ u. Q) E (remove_internal_tree_if_present slot)
unfolding remove_internal_tree_if_present
remove_tree-Triple {strict} {Q} {E} slot absent removed bad = record {
  runs = λ fates d p. elim (Option-cases (tree_at slot d)) [
    | inl nothing ↦
        subst (λ o. Post strict (λ (u : Unit {0}). Q) E fates (removal slot o fates d))
          (sym nothing) (record { held = (absent d p nothing, λ e. e) })
    | inr (t, there) ↦
        subst (λ o. Post strict (λ (u : Unit {0}). Q) E fates (removal slot o fates d)) (sym there)
          (act_tree-Post slot none fates d (removed d t p there) (λ left. bad d t left p there))
  ];
}

pub rename-Triple :
    {strict : Bool} {P Q E : Disk → Type 0} (source destination : Slot)
    → ((d : Disk)
        → P d
        → (is_some (tree_at source d) ≡ true) × (is_vacant (tree_at destination d) ≡ true))
    → ((d : Disk) → P d → Q (moved source destination d))
    → ((d : Disk) → P d → E d)
    → ((d : Disk) → P d → E (moved source destination d))
    → Triple strict P (λ u. Q) E (rename_internal source destination)
unfolding rename_internal
rename-Triple {strict} {P} {Q} {E} source destination possible good early behind = record {
  runs = λ fates d p.
      let (full, vacant) = possible d p in
      let both_ : (is_some (tree_at source d) && is_vacant (tree_at destination d)) ≡ true =
        ground arith in
      subst
        (λ b.
          Post strict (λ (u : Unit {0}). Q) E fates
            (if b
              then act (moved source destination) fates d
              else ran (failed error_of_disk) fates d))
        (sym both_)
        ((act-Triple {P = P} (moved source destination) good early behind).runs fates d p);
}

pub exists-Triple :
    {strict : Bool} {P E : Disk → Type 0} {Q : Bool → Disk → Type 0} (f : Disk → Bool)
    → ((d : Disk) → P d → Q (f d) d)
    → Triple strict P Q E (exists f)
exists-Triple f good = record { runs = λ fates d p. record { held = (good d p, λ e. e) } }

pub succeeds-Triple :
    {strict : Bool} {P E : Disk → Type 0} {Q : Bool → Disk → Type 0} (f : Disk → Bool)
    → ((d : Disk) → P d → Q (f d) d)
    → ((d : Disk) → P d → Q false d)
    → ((d : Disk) → P d → E d)
    → Triple strict P Q E (succeeds f)
unfolding succeeds
succeeds-Triple {strict} {P} {E} {Q} f good erred bad = record { runs = cases }
  where
    cases : (fates : List Fate) (d : Disk) → P d → Post strict Q E fates (succeeds f fates d)
    cases [] d p = record { held = (good d p, λ e. e) }
    cases (happens ∷ fates) d p = record {
      held = (good d p, λ e. absurd (cons_not_empty happens fates e));
    }
    cases (fails late left ∷ fates) d p = record {
      held = (erred d p, λ e. absurd (cons_not_empty _ fates e));
    }
    cases (stops late left ∷ fates) d p = record { held = (bad d p, λ s. cons_not_empty _ fates) }
