-- ===== src/Storage/Project/Recovery.antt =====
-- apps/local-server/src/storage.rs: how a project whose commit was interrupted is recovered, and how a
-- project is verified.
use synapsegit_lp_studio.Storage.Paths.{corrupt, drift}
use synapsegit_lp_studio.Storage.Disk.{
  CurrentPointer, Io, RevisionManifest, StoredFile, TransactionMarker, at_backup, at_site,
  at_staging, of_result, pass, read, remove_internal_tree_if_present, rename_internal,
  sync_directory, exists, succeeds, ◌>>=◌, ◌>>◌,
}
use synapsegit_lp_studio.Storage.Files.{
  StorageCrates, scan_materialized, storage_schema, validate_pointer, stored_file_eq, pointer_eq,
}
use synapsegit_lp_studio.Storage.Manifest.{or_corrupt, read_manifest_from_root}
use synapsegit_lp_studio.Storage.Project.{
  materialize_to, pointer_of_marker, remove_transaction, write_current,
}
use synapsegit_lp_studio.ChangeSet.Types.{Crates, Files}
use synapsegit_lp_studio.Prelude.{
  Bool, List, Option, err, false, if◌then◌else◌, is_some, list_eq, nat_eq, none, not, ok, reject_if,
  some, ◌==◌, ◌||◌,
}
use synapsegit_lp_studio.Prelude.Text.{Text}

-- The new tree takes the place of the site.
unfoldable pub replace_site : Crates → RevisionManifest → Io Unit
unfolding materialize_to remove_internal_tree_if_present rename_internal
replace_site crates manifest = do
  materialize_to crates manifest
  remove_internal_tree_if_present at_site
  rename_internal at_staging at_site

-- `scan_materialized(&site).ok() == Some(manifest.files)`
abbrev pub shows : Crates → StorageCrates → Option Files → List StoredFile → Bool
shows crates others site files = elim (scan_materialized crates others site) [
  | err e ↦ false
  | ok found ↦ found == files
]

unfoldable pub ensure_site : Crates → StorageCrates → RevisionManifest → Io Unit
unfolding succeeds scan_materialized replace_site
ensure_site crates others manifest = do
  there ← succeeds (λ d. shows crates others d.site manifest.files)
  if there then pass tt else replace_site crates manifest

-- The site of the current revision comes back, from the backup or from the objects.
unfoldable pub take_backup : Io Unit
unfolding remove_internal_tree_if_present rename_internal
take_backup = do remove_internal_tree_if_present at_site; rename_internal at_backup at_site

unfoldable pub rebuild_site : Crates → StorageCrates → CurrentPointer → Io Unit
unfolding read validate_pointer read_manifest_from_root replace_site
rebuild_site crates others pointer = do
  of_result (validate_pointer pointer)
  manifest ← read (λ d. read_manifest_from_root crates others pointer d.revisions)
  replace_site crates manifest

unfoldable pub restore_site : Crates → StorageCrates → CurrentPointer → Io Unit
unfolding take_backup rebuild_site
restore_site crates others pointer = do
  has_backup ← exists (λ d. is_some d.backup)
  if has_backup then take_backup else rebuild_site crates others pointer

-- The target is current already: its site is completed.
unfoldable pub complete_site : Crates → StorageCrates → CurrentPointer → Io Unit
unfolding read validate_pointer read_manifest_from_root ensure_site
complete_site crates others pointer = do
  of_result (validate_pointer pointer)
  manifest ← read (λ d. read_manifest_from_root crates others pointer d.revisions)
  ensure_site crates others manifest

-- No revision is current yet: the target becomes it.
unfoldable pub complete_creation : Crates → StorageCrates → CurrentPointer → Io Unit
unfolding read read_manifest_from_root ensure_site write_current
complete_creation crates others target = do
  manifest ← read (λ d. read_manifest_from_root crates others target d.revisions)
  ensure_site crates others manifest
  write_current target

unfoldable pub recover_current :
    Crates → StorageCrates → CurrentPointer → Option CurrentPointer → Io Unit
unfolding complete_creation complete_site restore_site
recover_current crates others target none = complete_creation crates others target
recover_current crates others target (some pointer) =
    if pointer == target
    then complete_site crates others pointer
    else if pointer.revision_id == target.revision_id
    then of_result (err corrupt)
    else restore_site crates others pointer

unfoldable pub recover_transaction : Crates → StorageCrates → TransactionMarker → Io Unit
unfolding validate_pointer read recover_current remove_internal_tree_if_present remove_transaction
    sync_directory
recover_transaction crates others marker = do
  of_result (reject_if (not (marker.schema_version == storage_schema)) corrupt)
  of_result (validate_pointer (pointer_of_marker marker))
  current ← read (λ d. ok d.current)
  recover_current crates others (pointer_of_marker marker) current
  remove_internal_tree_if_present at_backup
  remove_internal_tree_if_present at_staging
  remove_transaction
  sync_directory

unfoldable pub recover_marked : Crates → StorageCrates → Io Unit
unfolding read recover_transaction
recover_marked crates others = do
  marker ← read (λ d. or_corrupt d.transaction)
  recover_transaction crates others marker

-- `recover_project`, behind the removal of leftover temporary files.
unfoldable pub recover_project : Crates → StorageCrates → Io Unit
unfolding recover_marked
recover_project crates others = do
  underway ← exists (λ d. is_some d.transaction)
  if underway then recover_marked crates others else pass tt

-- `verify_project`
unfoldable pub verify_project : Crates → StorageCrates → Text → Text → Io Unit
unfolding read validate_pointer read_manifest_from_root scan_materialized
verify_project crates others revision_id artifact_manifest_sha256 = do
  pointer ← read (λ d. or_corrupt d.current)
  of_result (validate_pointer pointer)
  of_result (
      reject_if
        (not (pointer.revision_id == revision_id)
          || not (pointer.artifact_manifest_sha256 == artifact_manifest_sha256))
        corrupt)
  manifest ← read (λ d. read_manifest_from_root crates others pointer d.revisions)
  actual ← read (λ d. scan_materialized crates others d.site)
  of_result (reject_if (not (actual == manifest.files)) drift)
