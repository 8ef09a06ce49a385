-- ===== src/Storage/Project/Recover.antt =====
-- apps/local-server/src/storage.rs: the run of `recover_project` from a disk that a switch has left.
use synapsegit_lp_studio.Storage.Paths.{Stored, drift}
use synapsegit_lp_studio.Storage.Disk.{
  Disk, RevisionManifest, Slot, StoredFile, at_backup, at_site, at_staging, with_tree,
  CurrentPointer, is_vacant, pass,
}
use synapsegit_lp_studio.Storage.Files.{
  StorageCrates, scan_materialized, stored_files, validate_pointer, stored_file_eq, pointer_eq,
}
use synapsegit_lp_studio.Storage.Disk.Triple.{
  Triple, given-Triple, bind-Triple, known-Triple, loosen-Triple, pass-Triple, passes-Triple,
  seq-Triple, weaken-Triple,
}
use synapsegit_lp_studio.Storage.Project.Recoverable.{
  CanReturn, Marked, Recoverable, Shows, Switch, completing, returning, Retained, built,
}
use synapsegit_lp_studio.ChangeSet.Types.{Crates, Files}
use synapsegit_lp_studio.Storage.Manifest.{read_manifest_from_root}
use synapsegit_lp_studio.Storage.Project.Materialized.{replace_site-Triple}
use synapsegit_lp_studio.Storage.Project.Recovery.{
  complete_site, ensure_site, rebuild_site, replace_site, restore_site, shows, take_backup,
}
use synapsegit_lp_studio.Storage.Disk.Effects.{
  read-Triple, remove_tree-Triple, rename-Triple, exists-Triple, succeeds-Triple,
}
use synapsegit_lp_studio.Prelude.{
  ==_iff, Bool, List, Option, [], ap, err, false, if◌then◌else◌, inl, inr, is_some, list_eq,
  map_err, nat_eq, none, ok, refl, some, sym, true, ◌==◌, ◌∙◌, ◌≡◌, ◌⊎◌,
}
use synapsegit_lp_studio.Prelude.Text.{Bytes}
use synapsegit_lp_studio.Prelude.Map.{BTreeMap}

module _ (crates : Crates) (others : StorageCrates) (s : Switch) (strict : Bool) where
  abbrev pub Fallback : Disk → Type 0
  Fallback = Recoverable crates others s

  pub Marked-tree :
      (slot : Slot) (t : Option Files) (d : Disk)
      → Marked crates others s d
      → Marked crates others s (with_tree slot t d)
  Marked-tree at_site t d m = record {
    old_kept = m.old_kept;
    new_kept = m.new_kept;
    marked = m.marked;
  }
  Marked-tree at_backup t d m = record {
    old_kept = m.old_kept;
    new_kept = m.new_kept;
    marked = m.marked;
  }
  Marked-tree at_staging t d m = record {
    old_kept = m.old_kept;
    new_kept = m.new_kept;
    marked = m.marked;
  }

  abbrev pub InNew : Disk → Type 0
  InNew d = Marked crates others s d × (d.current ≡ some s.new)

  abbrev pub InOld : Disk → Type 0
  InOld d = Marked crates others s d × (d.current ≡ some s.old) × (d.backup ≡ none)

  abbrev pub InReturn : Disk → Type 0
  InReturn d = Marked crates others s d × CanReturn crates others s d

  pub in_old : (d : Disk) → InOld d → Fallback d
  in_old d (m, is_old, absent) = returning m (is_old, inl absent)

  pub in_new : (d : Disk) → InNew d → Fallback d
  in_new d (m, is_new) = completing m is_new

  pub in_return : (d : Disk) → InReturn d → Fallback d
  in_return d (m, can_return) = returning m can_return

  abbrev pub RestoredNew : Disk → Type 0
  RestoredNew d = InNew d × Shows crates others d.site s.new_manifest.files

  abbrev pub RestoredOld : Disk → Type 0
  RestoredOld d = InOld d × Shows crates others d.site s.old_manifest.files

  abbrev pub Restored : Disk → Type 0
  Restored d = RestoredNew d ⊎ RestoredOld d

  shows-Shows :
      (site : Option Files) (files : List StoredFile)
      → shows crates others site files ≡ true
      → Shows crates others site files
  shows-Shows site files h = compared (scan_materialized crates others site) h
    where
      compared :
          (r : Stored (List StoredFile))
          → (elim r [ err e ↦ false | ok found ↦ found == files ]) ≡ true
          → r ≡ ok files
      compared (err e) h = cc
      compared (ok found) h = ap ok ((==_iff found files).0 h)

  pub Shows-files :
      (manifest : RevisionManifest) (files : Files) (site : Option Files)
      → stored_files crates others files ≡ ok manifest.files
      → site ≡ some files
      → Shows crates others site manifest.files
  unfolding scan_materialized
  Shows-files manifest files site described there =
      ap (scan_materialized crates others) there ∙ ap (map_err (λ e. drift)) described

  pub Shows-is_some :
      (site : Option Files) (files : List StoredFile)
      → Shows crates others site files
      → is_some site ≡ true
  unfolding scan_materialized
  Shows-is_some none files h = cc
  Shows-is_some (some tree) files h = refl

  -- What does not depend on the disk.
  abbrev pub Facts : CurrentPointer → RevisionManifest → Files → Type 0
  Facts pointer manifest files =
      (validate_pointer pointer ≡ ok tt)
      × (stored_files crates others files ≡ ok manifest.files)
      × (built [] files ≡ files)

  pub facts :
      {pointer : CurrentPointer} {manifest : RevisionManifest} {files : Files}
      {objects revisions : BTreeMap Bytes}
      → Retained crates others pointer manifest files objects revisions
      → Facts pointer manifest files
  facts kept = (kept.valid, kept.described, kept.ordered)

  replace_new-Triple :
      Facts s.new s.new_manifest s.new_files
      → Triple strict InNew (λ u. RestoredNew) Fallback (replace_site crates s.new_manifest)
  replace_new-Triple (valid, described, ordered) =
      weaken-Triple (λ d p. p)
        (λ u d (p, there). (p, Shows-files s.new_manifest s.new_files d.site described there))
        (loosen-Triple in_new (
          replace_site-Triple crates others strict InNew
            (λ t d (m, e). (Marked-tree at_staging t d m, e)) s.new_manifest s.new_files
            (λ t d (m, e). (Marked-tree at_site t d m, e))
            (described, ordered, λ d p. p.0.new_kept.in_objects)))

  replace_old-Triple :
      Facts s.old s.old_manifest s.old_files
      → Triple strict InOld (λ u. RestoredOld) Fallback (replace_site crates s.old_manifest)
  replace_old-Triple (valid, described, ordered) =
      weaken-Triple (λ d p. p)
        (λ u d (p, there). (p, Shows-files s.old_manifest s.old_files d.site described there))
        (loosen-Triple in_old (
          replace_site-Triple crates others strict InOld
            (λ t d (m, e, absent). (Marked-tree at_staging t d m, e, absent)) s.old_manifest
            s.old_files (λ t d (m, e, absent). (Marked-tree at_site t d m, e, absent))
            (described, ordered, λ d p. p.0.old_kept.in_objects)))

  ensure_site-Triple :
      Facts s.new s.new_manifest s.new_files
      → Triple strict InNew (λ u. RestoredNew) Fallback (ensure_site crates others s.new_manifest)
  unfolding ensure_site
  ensure_site-Triple known =
      bind-Triple
        (succeeds-Triple
          {Q = λ b d. ((b ≡ true) → Shows crates others d.site s.new_manifest.files) × InNew d}
          (λ d. shows crates others d.site s.new_manifest.files)
          (λ d p. (shows-Shows d.site s.new_manifest.files, p)) (λ d p. (λ e. absurd (cc e), p))
          in_new)
        branches
    where
      branches :
          (b : Bool)
          → Triple strict
              (λ d. ((b ≡ true) → Shows crates others d.site s.new_manifest.files) × InNew d)
              (λ u. RestoredNew)
              Fallback
              (if b then pass tt else replace_site crates s.new_manifest)
      branches true =
          weaken-Triple {P = RestoredNew} (λ d (there, p). (p, there refl)) (λ u d q. q)
            (pass-Triple tt)
      branches false = weaken-Triple (λ d (there, p). p) (λ u d q. q) (replace_new-Triple known)

  -- The site of the new revision, which is current already.
  pub complete_site-Triple :
      Triple strict InNew (λ u. RestoredNew) Fallback (complete_site crates others s.new)
  unfolding complete_site
  complete_site-Triple =
      given-Triple {F = Facts s.new s.new_manifest s.new_files} (λ d p. facts p.0.new_kept)
        (λ known. seq-Triple (passes-Triple (validate_pointer s.new) known.0) (
          bind-Triple
            (read-Triple {Q = λ m d. (m ≡ s.new_manifest) × InNew d}
              (λ d. read_manifest_from_root crates others s.new d.revisions)
              (λ d p. (s.new_manifest, p.0.new_kept.reads, (refl, p))) in_new)
            (λ m.
              known-Triple (ensure_site crates others) s.new_manifest m
                (ensure_site-Triple known))))

  rebuild_site-Triple :
      Triple strict InOld (λ u. RestoredOld) Fallback (rebuild_site crates others s.old)
  unfolding rebuild_site
  rebuild_site-Triple =
      given-Triple {F = Facts s.old s.old_manifest s.old_files} (λ d p. facts p.0.old_kept)
        (λ known. seq-Triple (passes-Triple (validate_pointer s.old) known.0) (
          bind-Triple
            (read-Triple {Q = λ m d. (m ≡ s.old_manifest) × InOld d}
              (λ d. read_manifest_from_root crates others s.old d.revisions)
              (λ d p. (s.old_manifest, p.0.old_kept.reads, (refl, p))) in_old)
            (λ m. known-Triple (replace_site crates) s.old_manifest m (replace_old-Triple known))))

  -- The old revision is current, and the backup is its site.
  abbrev pub HasBackup : Disk → Type 0
  HasBackup d =
      Marked crates others s d
      × (d.current ≡ some s.old)
      × Shows crates others d.backup s.old_manifest.files

  take_backup-Triple : Triple strict HasBackup (λ u. RestoredOld) Fallback take_backup
  unfolding take_backup
  take_backup-Triple =
      seq-Triple
        (remove_tree-Triple {Q = λ d. HasBackup d × (d.site ≡ none)} at_site
          (λ d p absent. (p, absent))
          (λ d t (m, e, b) there. ((Marked-tree at_site none d m, e, b), refl))
          (λ d t left (m, e, b) there. returning (Marked-tree at_site left d m) (e, inr b)))
        (rename-Triple at_backup at_site
          (λ d ((m, e, b), absent).
            (Shows-is_some d.backup s.old_manifest.files b, ap is_vacant absent))
          (λ d ((m, e, b), absent).
            ((Marked-tree at_backup none _ (Marked-tree at_site d.backup d m), e, refl), b))
          (λ d ((m, e, b), absent). returning m (e, inr b))
          (λ d ((m, e, b), absent).
            returning (Marked-tree at_backup none _ (Marked-tree at_site d.backup d m))
              (e, inl refl)))

  pub restore_site-Triple :
      Triple strict InReturn (λ u. RestoredOld) Fallback (restore_site crates others s.old)
  unfolding restore_site
  restore_site-Triple =
      bind-Triple
        (exists-Triple {Q = λ b d. (is_some d.backup ≡ b) × InReturn d} (λ d. is_some d.backup)
          (λ d p. (refl, p)))
        branches
    where
      has_backup : (d : Disk) → (is_some d.backup ≡ true) × InReturn d → HasBackup d
      has_backup d (there, (m, (e, inr b))) = (m, e, b)
      has_backup d (there, (m, (e, inl absent))) =
          let clash : false ≡ true = sym (ap is_some absent) ∙ there in absurd (cc clash)

      no_backup : (d : Disk) → (is_some d.backup ≡ false) × InReturn d → InOld d
      no_backup d (absent, (m, (e, inl b))) = (m, e, b)
      no_backup d (absent, (m, (e, inr b))) =
          let clash : true ≡ false = sym (Shows-is_some d.backup s.old_manifest.files b) ∙ absent in
          absurd (cc clash)

      branches :
          (b : Bool)
          → Triple strict
              (λ d. (is_some d.backup ≡ b) × InReturn d)
              (λ u. RestoredOld)
              Fallback
              (if b then take_backup else rebuild_site crates others s.old)
      branches true = weaken-Triple has_backup (λ u d q. q) take_backup-Triple
      branches false = weaken-Triple no_backup (λ u d q. q) rebuild_site-Triple
