-- ===== src/Storage/Project/Materialized.antt =====
-- apps/local-server/src/storage.rs: what `materialize_to` writes, and the site that is put in place.
use synapsegit_lp_studio.Storage.Disk.{
  Disk, StoredFile, at_staging, with_tree, RevisionManifest, at_site, is_vacant, sync_directory,
  ◌>>◌,
}
use synapsegit_lp_studio.Storage.Files.{
  StorageCrates, stored_file, stored_files_from, max_files, stored_files, max_file_bytes,
  stored_file_eq, pointer_eq,
}
use synapsegit_lp_studio.Storage.Manifest.{load_object, checked_object}
use synapsegit_lp_studio.Storage.Project.{
  materialize_entries, with_file, write_new_file, create_dir, materialize_to,
}
use synapsegit_lp_studio.Storage.Disk.Triple.{
  Triple, bind-Triple, known-Triple, pass-Triple, passes-Triple, seq-Triple,
}
use synapsegit_lp_studio.Storage.Project.Recoverable.{built}
use synapsegit_lp_studio.ChangeSet.Types.{Crates, Files}
use synapsegit_lp_studio.ChangeSet.Path.{sha256}
use synapsegit_lp_studio.Storage.Paths.{import_limit, validate_canonical_path}
use synapsegit_lp_studio.Storage.Files.Round.{stored_round}
use synapsegit_lp_studio.Storage.Project.Recovery.{replace_site}
use synapsegit_lp_studio.Storage.Disk.Effects.{
  act-Triple, act_tree-Post, read-Triple, remove_tree-Triple, rename-Triple,
}
use synapsegit_lp_studio.Prelude.{
  ==_refl, All, Bool, List, Option, [], ap, false, is_some, length, list_eq, ltb, nat_eq, none, ok,
  ok_injective, pair_eq, refl, reject_if, seq-eq-ok, some, subst, ℕ, ◌+◌, ◌∙◌, ◌∷◌, ◌≡◌,
}
use synapsegit_lp_studio.Prelude.Text.{Bytes, Text}
use synapsegit_lp_studio.Prelude.Map.{BTreeMap}
use synapsegit_lp_studio.Prelude.Set.{HashSet}
use synapsegit_lp_studio.Prelude.Set
use synapsegit_lp_studio.Prelude.Map

with_objects :
    (crates : Crates) (others : StorageCrates) (path : Text) (bytes : Bytes)
    (objects : BTreeMap Bytes)
    → ltb max_file_bytes (length bytes) ≡ false
    → Map.get (sha256 crates bytes) objects ≡ some bytes
    → load_object crates (stored_file crates others path bytes) objects ≡ ok bytes
unfolding load_object checked_object
with_objects crates others path bytes objects small there =
    ap (checked_object crates (stored_file crates others path bytes)) there
    ∙ rw (small, ==_refl (length bytes), ==_refl (sha256 crates bytes)) refl

module _ (crates : Crates) (others : StorageCrates) (strict : Bool) (I : Disk → Type 0)
    (stable : (t : Option Files) (d : Disk) → I d → I (with_tree at_staging t d)) where
  -- What the part of the tree that is written holds.
  abbrev Staged : Files → Disk → Type 0
  Staged tree d = I d × (d.staging ≡ some tree)

  write_new_file-Triple :
      (path : Text) (bytes : Bytes) (tree : Files)
      → Triple strict
          (Staged tree)
          (λ u. Staged (Map.insert path bytes tree))
          I
          (write_new_file path bytes)
  unfolding write_new_file
  write_new_file-Triple path bytes tree = record {
    runs = λ fates d (p, there).
        act_tree-Post at_staging (with_file path bytes d.staging) fates d
          (stable _ d p, ap (with_file path bytes) there) (λ left. stable left d p);
  }

  entries-Triple :
      (files tree : Files) (folded : HashSet Text) (total : ℕ) (entries : List StoredFile)
      → ((d : Disk)
          → I d
          → All (λ file. Map.get (sha256 crates file.1) d.objects ≡ some file.1) files)
      → stored_files_from crates others files folded total ≡ ok entries
      → Triple strict
          (Staged tree)
          (λ u. Staged (built tree files))
          I
          (materialize_entries crates entries)
  unfolding stored_files_from materialize_entries built
  entries-Triple [] tree folded total entries there h =
      subst (λ es. Triple strict (Staged tree) (λ u. Staged tree) I (materialize_entries crates es))
        (ok_injective h) (pass-Triple tt)
  entries-Triple ((path, bytes) ∷ files) tree folded total entries there h =
      let seen = Set.insert (crates.folded path) folded in
      let r = stored_round crates others path bytes files folded total entries h in
      subst
        (λ es.
          Triple strict (Staged tree) (λ u. Staged (built (Map.insert path bytes tree) files)) I
            (materialize_entries crates es))
        r.joined
        (seq-Triple (passes-Triple (validate_canonical_path crates path) r.canonical) (
          bind-Triple
            (read-Triple {Q = λ a d. (a ≡ bytes) × Staged tree d}
              (λ d. load_object crates (stored_file crates others path bytes) d.objects)
              (λ d p. (
                bytes,
                with_objects crates others path bytes d.objects r.is_small (there d p.0).0,
                (refl, p),
              ))
              (λ d p. p.0))
            (λ a.
              known-Triple (λ b. write_new_file path b >> materialize_entries crates r.more) bytes a
                (seq-Triple (write_new_file-Triple path bytes tree) (
                  entries-Triple files (Map.insert path bytes tree) seen (total + length bytes)
                    r.more (λ d p. (there d p).1) r.are_more)))))

  -- What `materialize_to` needs of the disk, and keeps.
  abbrev CanGive : RevisionManifest → Files → Type 0
  CanGive manifest files =
      (stored_files crates others files ≡ ok manifest.files)
      × (built [] files ≡ files)
      × ((d : Disk)
          → I d
          → All (λ file. Map.get (sha256 crates file.1) d.objects ≡ some file.1) files)

  pub materialize_to-Triple :
      (manifest : RevisionManifest) (files : Files)
      → CanGive manifest files
      → Triple strict I (λ u d. I d × (d.staging ≡ some files)) I (materialize_to crates manifest)
  unfolding materialize_to create_dir sync_directory stored_files
  materialize_to-Triple manifest files (described, ordered, there) =
      let (few, listed) =
        seq-eq-ok (reject_if (ltb max_files (length files)) import_limit) _ described in
      seq-Triple
        (remove_tree-Triple {Q = I} at_staging (λ d p e. p) (λ d t p e. stable none d p)
          (λ d t left p e. stable left d p))
        (seq-Triple
          (act-Triple {Q = Staged []} (λ d. record d { staging = some [] })
            (λ d p. (stable (some []) d p, refl)) (λ d p. p) (λ d p. stable (some []) d p))
          (seq-Triple (entries-Triple files [] [] 0 manifest.files there listed) (
            act-Triple {Q = λ d. I d × (d.staging ≡ some files)} (λ d. d)
              (λ d (p, e). (p, e ∙ ap some ordered)) (λ d p. p.0) (λ d p. p.0))))

  -- The site is replaced by the files of the manifest.
  pub replace_site-Triple :
      (manifest : RevisionManifest) (files : Files)
      → ((t : Option Files) (d : Disk) → I d → I (with_tree at_site t d))
      → CanGive manifest files
      → Triple strict I (λ u d. I d × (d.site ≡ some files)) I (replace_site crates manifest)
  unfolding replace_site
  replace_site-Triple manifest files site_stable gives =
      seq-Triple (materialize_to-Triple manifest files gives) (
        seq-Triple
          (remove_tree-Triple {Q = λ d. I d × (d.staging ≡ some files) × (d.site ≡ none)} at_site
            (λ d (p, e) absent. (p, e, absent))
            (λ d t (p, e) there. (site_stable none d p, e, refl))
            (λ d t left (p, e) there. site_stable left d p))
          (rename-Triple at_staging at_site
            (λ d (p, e, absent). (ap is_some e, ap is_vacant absent))
            (λ d (p, e, absent). (stable none _ (site_stable d.staging d p), e)) (λ d p. p.0)
            (λ d p. stable none _ (site_stable d.staging d p.0))))
