-- ===== src/Storage/Project/Recoverable.antt =====
-- apps/local-server/src/storage.rs: the states of a project's directory that a commit and a recovery
-- go through.
use synapsegit_lp_studio.Storage.Disk.{CurrentPointer, Disk, RevisionManifest, StoredFile}
use synapsegit_lp_studio.Storage.Files.{
  StorageCrates, scan_materialized, storage_schema, stored_files, validate_pointer,
}
use synapsegit_lp_studio.Storage.Manifest.{read_manifest_from_root}
use synapsegit_lp_studio.Storage.Project.{marker_of_pointer}
use synapsegit_lp_studio.ChangeSet.Types.{Crates, Files}
use synapsegit_lp_studio.ChangeSet.Path.{sha256}
use synapsegit_lp_studio.Prelude.{All, List, Option, [], none, ok, some, ◌∷◌, ◌≡◌, ◌≢◌, ◌⊎◌}
use synapsegit_lp_studio.Prelude.Text.{Bytes}
use synapsegit_lp_studio.Prelude.Map.{BTreeMap}
use synapsegit_lp_studio.Prelude.Map

-- The directory has been rebuilt in the order of the map: a `BTreeMap` is what the insertion of its
-- own entries gives.
unfoldable pub built : Files → Files → Files
unfolding Map.insert
built tree [] = tree
built tree ((path, bytes) ∷ rest) = built (Map.insert path bytes tree) rest

-- A revision that is replaced by another.
pub record Switch : Type 0 where
  pub old : CurrentPointer
  pub new : CurrentPointer
  pub old_manifest : RevisionManifest
  pub new_manifest : RevisionManifest
  pub old_files : Files
  pub new_files : Files
  pub differ : old.revision_id ≢ new.revision_id
  pub new_schema : new.schema_version ≡ storage_schema

module _ (crates : Crates) (others : StorageCrates) where
  -- The store can give the files of the revision: its manifest reads well and every object is there.
  pub record Retained (pointer : CurrentPointer) (manifest : RevisionManifest) (files : Files)
      (objects revisions : BTreeMap Bytes) : Type 0 where
    pub reads : read_manifest_from_root crates others pointer revisions ≡ ok manifest
    pub valid : validate_pointer pointer ≡ ok tt
    pub described : stored_files crates others files ≡ ok manifest.files
    pub in_objects : All (λ file. Map.get (sha256 crates file.1) objects ≡ some file.1) files
    pub ordered : built [] files ≡ files

  -- The site is what the description says, as `verify_project` compares it.
  abbrev pub Shows : Option Files → List StoredFile → Type 0
  Shows site stored = scan_materialized crates others site ≡ ok stored

  module _ (s : Switch) where
    abbrev pub RetainsOld : Disk → Type 0
    RetainsOld d = Retained s.old s.old_manifest s.old_files d.objects d.revisions

    abbrev pub RetainsNew : Disk → Type 0
    RetainsNew d = Retained s.new s.new_manifest s.new_files d.objects d.revisions

    -- Nothing is under way, and the site is that of the current revision.
    pub record Settled (pointer : CurrentPointer) (manifest : RevisionManifest) (d : Disk)
        : Type 0 where
      pub is_current : d.current ≡ some pointer
      pub no_transaction : d.transaction ≡ none
      pub no_backup : d.backup ≡ none
      pub site_shows : Shows d.site manifest.files

    -- The switch is under way, and both revisions are retained.
    pub record Marked (d : Disk) : Type 0 where
      pub old_kept : RetainsOld d
      pub new_kept : RetainsNew d
      pub marked : d.transaction ≡ some (marker_of_pointer s.new)

    -- The old revision is current, and its site can be had back.
    abbrev pub CanReturn : Disk → Type 0
    CanReturn d =
        (d.current ≡ some s.old) × ((d.backup ≡ none) ⊎ Shows d.backup s.old_manifest.files)

    -- What a recovery can start from: the switch has not begun, is under way with either revision
    -- current, or is done.
    pub data Recoverable (d : Disk) : Type 0 where
      not_begun : (kept : RetainsOld d) (settled : Settled s.old s.old_manifest d) → Recoverable d
      returning : (m : Marked d) (can_return : CanReturn d) → Recoverable d
      completing : (m : Marked d) (is_new : d.current ≡ some s.new) → Recoverable d
      switched : (kept : RetainsNew d) (settled : Settled s.new s.new_manifest d) → Recoverable d
