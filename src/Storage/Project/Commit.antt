-- ===== src/Storage/Project/Commit.antt =====
-- apps/local-server/src/storage.rs: the run of `commit_revision_at` from the marker of the transaction
-- on.
use synapsegit_lp_studio.Storage.Disk.{
  Disk, at_backup, at_site, at_staging, is_vacant, moved, sync_directory, with_tree,
}
use synapsegit_lp_studio.Storage.Files.{StorageCrates, stored_files}
use synapsegit_lp_studio.Storage.Project.{
  keep_backup, publish_staging, put_back, marker_of_pointer, remove_transaction, switch_to,
  write_current, write_transaction,
}
use synapsegit_lp_studio.Storage.Disk.Triple.{
  Triple, branch-Triple, given-Triple, impossible-Triple, loosen-Triple, or_else-Triple,
  pass-Triple, seq-Triple, weaken-Triple,
}
use synapsegit_lp_studio.Storage.Project.Recoverable.{
  Recoverable, Shows, Switch, returning, RetainsNew, RetainsOld, Settled, not_begun, switched,
}
use synapsegit_lp_studio.ChangeSet.Types.{Crates, Files}
use synapsegit_lp_studio.Storage.Project.Materialized.{materialize_to-Triple}
use synapsegit_lp_studio.Storage.Project.Recover.{
  Facts, HasBackup, InNew, InOld, facts, in_new, in_old, Marked-tree, Shows-is_some, Shows-files,
}
use synapsegit_lp_studio.Storage.Disk.Effects.{act-Triple, remove_tree-Triple, rename-Triple}
use synapsegit_lp_studio.Prelude.{
  Bool, Option, ap, arith, false, inl, inr, is_some, none, not, ok, refl, some, sym, true, ◌&&◌,
  ◌∙◌, ◌≡◌,
}

module _ (crates : Crates) (others : StorageCrates) (s : Switch) (strict : Bool) where
  abbrev Safe : Disk → Type 0
  Safe = Recoverable crates others s

  -- The site is that of the old revision, which is current, and there is no backup.
  abbrev Begun : Disk → Type 0
  Begun d = InOld crates others s strict d × Shows crates others d.site s.old_manifest.files

  Begun-Safe : (d : Disk) → Begun d → Safe d
  Begun-Safe d (p, there) = in_old crates others s strict d p

  -- The site has gone to the backup, and the new tree waits.
  abbrev Waiting : Disk → Type 0
  Waiting d = HasBackup crates others s strict d × (d.site ≡ none) × (d.staging ≡ some s.new_files)

  HasBackup-Safe : (d : Disk) → HasBackup crates others s strict d → Safe d
  HasBackup-Safe d (m, e, b) = returning m (e, inr b)

  abbrev Published : Disk → Type 0
  Published d = HasBackup crates others s strict d × (d.site ≡ some s.new_files)

  abbrev Ready : Disk → Type 0
  Ready d = InNew crates others s strict d × (d.site ≡ some s.new_files)

  Ready-Safe : (d : Disk) → Ready d → Safe d
  Ready-Safe d (p, there) = in_new crates others s strict d p

  keep_backup-Triple :
      Triple strict (λ d. Begun d × (d.staging ≡ some s.new_files)) (λ u. Waiting) Safe keep_backup
  unfolding keep_backup
  keep_backup-Triple =
      branch-Triple (λ d. is_some d.site)
        (rename-Triple at_site at_backup (λ d p. (p.1, ap is_vacant p.0.0.0.2))
          (λ d p. (
            (
              Marked-tree crates others s strict at_site none _
                  (Marked-tree crates others s strict at_backup d.site d p.0.0.0.0),
              p.0.0.0.1,
              p.0.0.1,
            ),
            refl,
            p.0.1,
          ))
          (λ d p. Begun-Safe d p.0.0)
          (λ d p.
            returning
              (Marked-tree crates others s strict at_site none _
                (Marked-tree crates others s strict at_backup d.site d p.0.0.0.0))
              (p.0.0.0.1, inr p.0.0.1)))
        (impossible-Triple (λ d p.
          let clash : true ≡ false =
            sym (Shows-is_some crates others s strict d.site s.old_manifest.files p.0.0.1) ∙ p.1 in
          cc clash))

  put_back-Triple : Triple strict (HasBackup crates others s strict) (λ u. Safe) Safe put_back
  unfolding put_back
  put_back-Triple =
      branch-Triple (λ d. is_some d.backup && not (is_some d.site))
        (rename-Triple at_backup at_site
          (λ d p. (put_back_full d.backup d.site p.1, put_back_vacant d.backup d.site p.1)) put
          (λ d p. HasBackup-Safe d p.0) put)
        (weaken-Triple (λ d p. HasBackup-Safe d p.0) (λ u d q. q) (pass-Triple tt))
    where
      put_back_full :
          (backup site : Option Files)
          → (is_some backup && not (is_some site)) ≡ true
          → is_some backup ≡ true
      put_back_full backup site h = ground arith

      put_back_vacant :
          (backup site : Option Files)
          → (is_some backup && not (is_some site)) ≡ true
          → is_vacant site ≡ true
      put_back_vacant backup none h = refl
      put_back_vacant none (some t) h = cc
      put_back_vacant (some b) (some t) h = cc

      put :
          (d : Disk)
          → HasBackup crates others s strict d × ((is_some d.backup && not (is_some d.site)) ≡ true)
          → Safe (moved at_backup at_site d)
      put d ((m, e, b), h) =
          returning
            (Marked-tree crates others s strict at_backup none _
              (Marked-tree crates others s strict at_site d.backup d m))
            (e, inl refl)

  -- After an error of the rename, the old tree is the backup still, or the site again.
  publish_staging-Triple : Triple strict Waiting (λ u. Published) Safe publish_staging
  unfolding publish_staging
  publish_staging-Triple =
      or_else-Triple HasBackup-Safe
        (rename-Triple at_staging at_site
          (λ d (p, absent, waits). (ap is_some waits, ap is_vacant absent)) moved_in (λ d p. p.0)
          (λ d p. (moved_in d p).0))
        put_back-Triple
    where
      moved_in : (d : Disk) → Waiting d → Published (moved at_staging at_site d)
      moved_in d ((m, e, b), absent, waits) = (
        (
          Marked-tree crates others s strict at_staging none _
              (Marked-tree crates others s strict at_site d.staging d m),
          e,
          b,
        ),
        waits,
      )

  -- What a commit starts from, once the objects and the manifest of the new revision are written.
  abbrev pub ReadyToSwitch : Disk → Type 0
  ReadyToSwitch d =
      RetainsOld crates others s d
      × RetainsNew crates others s d
      × Settled crates others s s.old s.old_manifest d

  abbrev pub IsSwitched : Disk → Type 0
  IsSwitched d = RetainsNew crates others s d × Settled crates others s s.new s.new_manifest d

  begin :
      (d : Disk)
      → ReadyToSwitch d
      → Begun (record d { transaction = some (marker_of_pointer s.new) })
  begin d (old, new, settled) = (
    (
      record { old_kept = old; new_kept = new; marked = refl },
      settled.is_current,
      settled.no_backup,
    ),
    settled.site_shows,
  )

  finish_switch :
      (d : Disk)
      → stored_files crates others s.new_files ≡ ok s.new_manifest.files
      → Ready d × (d.backup ≡ none)
      → IsSwitched (record d { transaction = none })
  finish_switch d described (((m, e), there), absent) = (
    m.new_kept,
    record {
      is_current = e;
      no_transaction = refl;
      no_backup = absent;
      site_shows =
          Shows-files crates others s strict s.new_manifest s.new_files d.site described there;
    },
  )

  pub switch_to-Triple :
      Triple strict ReadyToSwitch (λ u. IsSwitched) Safe (switch_to crates s.new_manifest s.new)
  unfolding switch_to write_transaction write_current sync_directory remove_transaction
  switch_to-Triple =
      given-Triple {F = Facts crates others s strict s.new s.new_manifest s.new_files}
        (λ d p. facts crates others s strict p.1)
        (λ (valid, described, ordered).
          seq-Triple
            (act-Triple {Q = Begun} (λ d. record d { transaction = some (marker_of_pointer s.new) })
              begin (λ d p. not_begun p.0 p.2) (λ d p. Begun-Safe _ (begin d p)))
            (seq-Triple
              (loosen-Triple Begun-Safe (
                materialize_to-Triple crates others strict Begun
                  (λ t d ((m, e, a), there).
                    ((Marked-tree crates others s strict at_staging t d m, e, a), there))
                  s.new_manifest s.new_files
                  (described, ordered, λ d p. p.0.0.new_kept.in_objects)))
              (seq-Triple
                (remove_tree-Triple {Q = λ d. Begun d × (d.staging ≡ some s.new_files)} at_backup
                  (λ d p absent. p) (λ d t p there. absurd (no_tree d t p.0 there))
                  (λ d t left p there. absurd (no_tree d t p.0 there)))
                (seq-Triple keep_backup-Triple (
                  seq-Triple publish_staging-Triple (
                    seq-Triple
                      (act-Triple {Q = Ready} (λ d. record d { current = some s.new }) to_new
                        (λ d p. HasBackup-Safe d p.0) (λ d p. Ready-Safe _ (to_new d p)))
                      (seq-Triple (act-Triple {Q = Ready} (λ d. d) (λ d p. p) Ready-Safe Ready-Safe)
                        (seq-Triple
                          (remove_tree-Triple {Q = λ d. Ready d × (d.backup ≡ none)} at_backup
                            (λ d p absent. (p, absent))
                            (λ d t p there. (without_backup none d p, refl))
                            (λ d t left p there. Ready-Safe _ (without_backup left d p)))
                          (act-Triple {Q = IsSwitched} (λ d. record d { transaction = none })
                            (λ d p. finish_switch d described p) (λ d p. Ready-Safe d p.0)
                            (λ d p.
                              let q = finish_switch d described p in switched q.0 q.1))))))))))
    where
      no_tree : (d : Disk) (t : Files) → Begun d → d.backup ≡ some t → ⊥
      no_tree d t ((m, e, absent), there) some_t =
          let clash : none ≡ some t = sym absent ∙ some_t in cc clash

      to_new : (d : Disk) → Published d → Ready (record d { current = some s.new })
      to_new d ((m, e, b), there) = (
        (record { old_kept = m.old_kept; new_kept = m.new_kept; marked = m.marked }, refl),
        there,
      )

      without_backup : (t : Option Files) (d : Disk) → Ready d → Ready (with_tree at_backup t d)
      without_backup t d ((m, e), there) =
          ((Marked-tree crates others s strict at_backup t d m, e), there)
