-- ===== src/Storage/Project/Restored.antt =====
-- apps/local-server/src/storage.rs: the end of `recover_project`.
use synapsegit_lp_studio.Storage.Paths.{corrupt}
use synapsegit_lp_studio.Storage.Disk.{
  CurrentPointer, Disk, Fate, at_backup, at_staging, remove_internal_tree_if_present,
  sync_directory, with_tree, TransactionMarker, pass,
}
use synapsegit_lp_studio.Storage.Files.{
  StorageCrates, storage_schema, validate_pointer, stored_file_eq, pointer_eq,
}
use synapsegit_lp_studio.Storage.Project.{marker_of_pointer, pointer_of_marker, remove_transaction}
use synapsegit_lp_studio.Storage.Disk.Triple.{
  Post, Triple, bind-Triple, given-Triple, passes-Triple, seq-Triple, weaken-Triple, known-Triple,
  pass-Triple,
}
use synapsegit_lp_studio.Storage.Project.Recoverable.{
  Recoverable, RetainsNew, RetainsOld, Settled, Switch, completing, not_begun, switched, returning,
}
use synapsegit_lp_studio.Storage.Project.Recover.{
  InNew, InReturn, Restored, complete_site-Triple, in_new, in_old, in_return, Marked-tree,
  restore_site-Triple,
}
use synapsegit_lp_studio.ChangeSet.Types.{Crates, Files}
use synapsegit_lp_studio.Storage.Project.Recovery.{
  complete_site, recover_current, recover_project, recover_transaction, restore_site,
  recover_marked,
}
use synapsegit_lp_studio.Storage.Disk.Effects.{
  act-Triple, read-Triple, remove_tree-Triple, exists-Triple,
}
use synapsegit_lp_studio.Storage.Manifest.{or_corrupt}
use synapsegit_lp_studio.Prelude.{
  ==_iff, ==_refl, Bool, Bool-cases, List, Option, PartialEq, ap, false, if◌then◌else◌, inl, inr,
  is_some, list_eq, nat_eq, none, not, ok, refl, reject_if, some, subst, sym, true, ◌==◌, ◌∙◌, ◌≡◌,
  ◌≢◌, ◌⊎◌,
}
use synapsegit_lp_studio.Prelude.Text.{Text}

recover_new_lem :
    (crates : Crates) (others : StorageCrates) (pointer : CurrentPointer)
    → recover_current crates others pointer (some pointer) ≡ complete_site crates others pointer
unfolding recover_current
recover_new_lem crates others pointer = rw (==_refl pointer) refl

recover_old_lem :
    (crates : Crates) (others : StorageCrates) (s : Switch)
    → recover_current crates others s.new (some s.old) ≡ restore_site crates others s.old
unfolding recover_current
recover_old_lem crates others s =
    let other_id : (s.old.revision_id == s.new.revision_id) ≡ false =
      differs s.old.revision_id s.new.revision_id s.differ in
    let other : (s.old == s.new) ≡ false =
      differs s.old s.new (λ e. s.differ (ap (λ p. p.revision_id) e)) in
    rw (other, other_id) refl
  where
    differs : {A : Type 0} ⦃eq : PartialEq A⦄ (a b : A) → a ≢ b → (a == b) ≡ false
    differs a b ne = elim (Bool-cases (a == b)) [
      | inl same ↦ absurd (ne ((==_iff a b).0 same))
      | inr other ↦ other
    ]

pointer_of_marker_lem :
    (p : CurrentPointer)
    → p.schema_version ≡ storage_schema
    → pointer_of_marker (marker_of_pointer p) ≡ p
pointer_of_marker_lem p e =
    ap
      (λ v. record {
        schema_version = v;
        revision_id = p.revision_id;
        canonical_manifest_sha256 = p.canonical_manifest_sha256;
        artifact_manifest_sha256 = p.artifact_manifest_sha256;
      })
      (sym e)

module _ (crates : Crates) (others : StorageCrates) (s : Switch) (strict : Bool) where
  abbrev Left : Disk → Type 0
  Left = Recoverable crates others s

  -- The switch is under way, and either revision is current.
  abbrev Underway : Disk → Type 0
  Underway d = InNew crates others s strict d ⊎ InReturn crates others s strict d

  abbrev Back : Disk → Type 0
  Back = Restored crates others s strict

  Underway-Left : (d : Disk) → Underway d → Left d
  Underway-Left d (inl p) = in_new crates others s strict d p
  Underway-Left d (inr p) = in_return crates others s strict d p

  abbrev IsRead : Option CurrentPointer → Disk → Type 0
  IsRead c d =
      ((c ≡ some s.new) × InNew crates others s strict d)
      ⊎ ((c ≡ some s.old) × InReturn crates others s strict d)

  is_read : (d : Disk) → Underway d → IsRead d.current d
  is_read d (inl p) = inl (p.1, p)
  is_read d (inr p) = inr (p.1.0, p)

  recover_current-Triple :
      (c : Option CurrentPointer)
      → Triple strict (IsRead c) (λ u. Back) Left (recover_current crates others s.new c)
  recover_current-Triple c = record { runs = by_pointer }
    where
      new_one :
          Triple strict
            (InNew crates others s strict)
            (λ u. Back)
            Left
            (recover_current crates others s.new (some s.new))
      new_one =
          subst (Triple strict (InNew crates others s strict) (λ (u : Unit {0}). Back) Left)
            (sym (recover_new_lem crates others s.new))
            (weaken-Triple (λ d p. p) (λ u d q. inl q)
              (complete_site-Triple crates others s strict))

      old_one :
          Triple strict
            (InReturn crates others s strict)
            (λ u. Back)
            Left
            (recover_current crates others s.new (some s.old))
      old_one =
          subst (Triple strict (InReturn crates others s strict) (λ (u : Unit {0}). Back) Left)
            (sym (recover_old_lem crates others s))
            (weaken-Triple (λ d p. p) (λ u d q. inr q) (restore_site-Triple crates others s strict))

      by_pointer :
          (fates : List Fate) (d : Disk)
          → IsRead c d
          → Post strict
              (λ (u : Unit {0}). Back)
              Left
              fates
              (recover_current crates others s.new c fates d)
      by_pointer fates d (inl (e, p)) =
          subst
            (λ x.
              Post strict (λ (u : Unit {0}). Back) Left fates
                (recover_current crates others s.new x fates d))
            (sym e) (new_one.runs fates d p)
      by_pointer fates d (inr (e, p)) =
          subst
            (λ x.
              Post strict (λ (u : Unit {0}). Back) Left fates
                (recover_current crates others s.new x fates d))
            (sym e) (old_one.runs fates d p)

  Back-Left : (d : Disk) → Back d → Left d
  Back-Left d (inl (p, there)) = in_new crates others s strict d p
  Back-Left d (inr (p, there)) = in_old crates others s strict d p

  -- Either revision is current and no switch is under way.
  abbrev pub AllSettled : Disk → Type 0
  AllSettled d =
      (RetainsOld crates others s d × Settled crates others s s.old s.old_manifest d)
      ⊎ (RetainsNew crates others s d × Settled crates others s s.new s.new_manifest d)

  pub settled-Left : (d : Disk) → AllSettled d → Left d
  settled-Left d (inl (kept, settled)) = not_begun kept settled
  settled-Left d (inr (kept, settled)) = switched kept settled

  abbrev Cleared : Disk → Type 0
  Cleared d = Back d × (d.backup ≡ none)

  cleared : (d : Disk) → Cleared d → AllSettled (record d { transaction = none })
  cleared d (inl ((m, e), there), absent) = inr (
    m.new_kept,
    record { is_current = e; no_transaction = refl; no_backup = absent; site_shows = there },
  )
  cleared d (inr ((m, e, none_there), there), absent) = inl (
    m.old_kept,
    record { is_current = e; no_transaction = refl; no_backup = absent; site_shows = there },
  )

  remove_backup-Triple :
      Triple strict Back (λ u. Cleared) Left (remove_internal_tree_if_present at_backup)
  remove_backup-Triple = remove_tree-Triple at_backup (λ d p absent. (p, absent)) removed lost
    where
      removed :
          (d : Disk) (t : Files) → Back d → d.backup ≡ some t → Cleared (with_tree at_backup none d)
      removed d t (inl ((m, e), there)) some_t =
          (inl ((Marked-tree crates others s strict at_backup none d m, e), there), refl)
      removed d t (inr ((m, e, absent), there)) some_t =
          (inr ((Marked-tree crates others s strict at_backup none d m, e, refl), there), refl)

      lost :
          (d : Disk) (t : Files) (left : Option Files)
          → Back d
          → d.backup ≡ some t
          → Left (with_tree at_backup left d)
      lost d t left (inl ((m, e), there)) some_t =
          completing (Marked-tree crates others s strict at_backup left d m) e
      lost d t left (inr ((m, e, absent), there)) some_t =
          let clash : none ≡ some t = sym absent ∙ some_t in absurd (cc clash)

  staging_changes : (t : Option Files) (d : Disk) → Cleared d → Cleared (with_tree at_staging t d)
  staging_changes t d (inl ((m, e), there), absent) =
      (inl ((Marked-tree crates others s strict at_staging t d m, e), there), absent)
  staging_changes t d (inr ((m, e, gone), there), absent) =
      (inr ((Marked-tree crates others s strict at_staging t d m, e, gone), there), absent)

  recover_transaction-Triple :
      Triple strict Underway
        (λ u. AllSettled)
        Left
        (recover_transaction crates others (marker_of_pointer s.new))
  unfolding recover_transaction sync_directory remove_transaction
  recover_transaction-Triple = given-Triple {F = validate_pointer s.new ≡ ok tt} is_valid (λ valid.
      let as_new = pointer_of_marker_lem s.new s.new_schema in
      seq-Triple (passes-Triple _ (schema_passes refl)) (
        seq-Triple (passes-Triple _ (ap validate_pointer as_new ∙ valid)) (
          bind-Triple
            (read-Triple {Q = IsRead} (λ d. ok d.current) (λ d p. (d.current, refl, is_read d p))
              Underway-Left)
            (λ c.
              seq-Triple
                (subst
                  (λ x.
                    Triple strict (IsRead c) (λ (u : Unit {0}). Back) Left
                      (recover_current crates others x c))
                  (sym as_new) (recover_current-Triple c))
                (seq-Triple remove_backup-Triple (
                  seq-Triple
                    (remove_tree-Triple {Q = Cleared} at_staging (λ d p e. p)
                      (λ d t p e. staging_changes none d p)
                      (λ d t left p e. Back-Left _ (staging_changes left d p).0))
                    (seq-Triple
                      (act-Triple {Q = AllSettled} (λ d. record d { transaction = none }) cleared
                        (λ d p. Back-Left d p.0) (λ d p. settled-Left _ (cleared d p)))
                      (act-Triple {Q = AllSettled} (λ d. d) (λ d p. p) settled-Left
                        settled-Left))))))))
    where
      is_valid : (d : Disk) → Underway d → validate_pointer s.new ≡ ok tt
      is_valid d (inl p) = p.0.new_kept.valid
      is_valid d (inr p) = p.0.new_kept.valid

      schema_passes :
          {v : Text} → v ≡ storage_schema → reject_if (not (v == storage_schema)) corrupt ≡ ok tt
      schema_passes {v} e = rw e (rw (==_refl storage_schema) refl)

  abbrev IsMark : Option TransactionMarker → Disk → Type 0
  IsMark t d = ((t ≡ none) × AllSettled d) ⊎ ((t ≡ some (marker_of_pointer s.new)) × Underway d)

  is_mark : (d : Disk) → Left d → IsMark d.transaction d
  is_mark d (not_begun kept settled) = inl (settled.no_transaction, inl (kept, settled))
  is_mark d (switched kept settled) = inl (settled.no_transaction, inr (kept, settled))
  is_mark d (returning m can_return) = inr (m.marked, inr (m, can_return))
  is_mark d (completing m is_new) = inr (m.marked, inl (m, is_new))

  unmarked : (d : Disk) → (is_some d.transaction ≡ false) × IsMark d.transaction d → AllSettled d
  unmarked d (absent, inl (e, p)) = p
  unmarked d (absent, inr (e, p)) =
      let clash : true ≡ false = sym (ap is_some e) ∙ absent in absurd (cc clash)

  marked :
      (d : Disk)
      → (is_some d.transaction ≡ true) × IsMark d.transaction d
      → (d.transaction ≡ some (marker_of_pointer s.new)) × Underway d
  marked d (there, inl (e, p)) =
      let clash : false ≡ true = sym (ap is_some e) ∙ there in absurd (cc clash)
  marked d (there, inr (e, p)) = (e, p)

  recover_marked-Triple :
      Triple strict
        (λ d. (d.transaction ≡ some (marker_of_pointer s.new)) × Underway d)
        (λ u. AllSettled)
        Left
        (recover_marked crates others)
  unfolding recover_marked
  recover_marked-Triple =
      bind-Triple
        (read-Triple {Q = λ m d. (m ≡ marker_of_pointer s.new) × Underway d}
          (λ d. or_corrupt d.transaction)
          (λ d (e, p). (marker_of_pointer s.new, ap or_corrupt e, (refl, p)))
          (λ d p. Underway-Left d p.1))
        (λ m.
          known-Triple (recover_transaction crates others) (marker_of_pointer s.new) m
            recover_transaction-Triple)

  pub recover_project-Triple :
      Triple strict Left (λ u. AllSettled) Left (recover_project crates others)
  unfolding recover_project
  recover_project-Triple =
      bind-Triple
        (exists-Triple {Q = λ b d. (is_some d.transaction ≡ b) × IsMark d.transaction d}
          (λ d. is_some d.transaction) (λ d p. (refl, is_mark d p)))
        branches
    where
      branches :
          (b : Bool)
          → Triple strict
              (λ d. (is_some d.transaction ≡ b) × IsMark d.transaction d)
              (λ u. AllSettled)
              Left
              (if b then recover_marked crates others else pass tt)
      branches true = weaken-Triple marked (λ u d q. q) recover_marked-Triple
      branches false = weaken-Triple unmarked (λ u d q. q) (pass-Triple tt)
