-- ===== src/Storage/Project.antt =====
-- apps/local-server/src/storage.rs: how a revision is committed to a project's directory. The directories of the store exist; a failpoint that precedes an
-- effect is a fault of the effect.
pub mod Recoverable
pub mod Materialized
pub mod Recover
pub mod Recovery
pub mod Commit
pub mod Written
pub mod Committed
pub mod Committing
pub mod Completes
pub mod Crash
pub mod Restored
use synapsegit_lp_studio.Storage.Paths.{
  corrupt, validate_canonical_path, validate_digits, validate_identifier, Stored,
}
use synapsegit_lp_studio.Storage.Disk.{
  CurrentPointer, Io, RevisionManifest, StoredFile, act, act_tree, at_staging, of_result, pass,
  read, remove_internal_tree_if_present, sync_directory, TransactionMarker, at_backup, at_site,
  done, or_else, ran, rename_internal, ◌>>=◌, ◌>>◌,
}
use synapsegit_lp_studio.Storage.Files.{
  StorageCrates, storage_schema, stored_files, max_file_bytes, stored_file_eq, pointer_eq,
}
use synapsegit_lp_studio.ChangeSet.Types.{Crates, Files}
use synapsegit_lp_studio.ChangeSet.Path.{sha256}
use synapsegit_lp_studio.Storage.Manifest.{load_object, or_corrupt}
use synapsegit_lp_studio.Prelude.{
  List, Option, [], if◌then◌else◌, is_some, length, list_eq, ltb, nat_eq, none, not, ok, reject_if,
  some, ◌&&◌, ◌==◌, ◌||◌, ◌∷◌,
}
use synapsegit_lp_studio.Prelude.Text.{Bytes, Text, codes}
use synapsegit_lp_studio.Prelude.Map

abbrev pub verify_immutable_bytes : Bytes → Bytes → Stored Unit
verify_immutable_bytes actual expected =
    reject_if (ltb max_file_bytes (length expected) || not (actual == expected)) corrupt

-- `write_immutable` of an object or a revision: what is there must be the same.
unfoldable pub write_object : Crates → Text → Bytes → Io Unit
unfolding validate_digits Map.get Map.insert sha256 act
write_object crates digest bytes = do
  of_result (validate_digits 64 digest)
  of_result (reject_if (not (sha256 crates bytes == digest)) corrupt)
  existing ← read (λ d. ok (Map.get digest d.objects))
  elim existing [
    | none ↦ act (λ d. record d { objects = Map.insert digest bytes d.objects })
    | some actual ↦ of_result (verify_immutable_bytes actual bytes)
  ]

unfoldable pub write_revision : Text → Bytes → Io Unit
unfolding Map.get Map.insert act
write_revision revision_id bytes = do
  existing ← read (λ d. ok (Map.get revision_id d.revisions))
  elim existing [
    | none ↦ act (λ d. record d { revisions = Map.insert revision_id bytes d.revisions })
    | some actual ↦ of_result (verify_immutable_bytes actual bytes)
  ]

-- The loop over the files to store.
unfoldable pub write_objects : Crates → Files → List StoredFile → Io Unit
unfolding Map.get write_object
write_objects crates files [] = pass tt
write_objects crates files (entry ∷ entries) = do
  bytes ← of_result (or_corrupt (Map.get entry.path files))
  write_object crates entry.sha256_of_file bytes
  write_objects crates files entries

-- `create_dir` and `write_new_file` in the tree `site.staging`
unfoldable pub create_dir : Io Unit
unfolding act
create_dir = act (λ d. record d { staging = some [] })

abbrev pub with_file : Text → Bytes → Option Files → Option Files
with_file path bytes none = none
with_file path bytes (some tree) = some (Map.insert path bytes tree)

unfoldable pub write_new_file : Text → Bytes → Io Unit
unfolding Map.insert act_tree
write_new_file path bytes fates d = act_tree at_staging (with_file path bytes d.staging) fates d

unfoldable pub materialize_entries : Crates → List StoredFile → Io Unit
unfolding validate_canonical_path load_object write_new_file read
materialize_entries crates [] = pass tt
materialize_entries crates (entry ∷ entries) = do
  of_result (validate_canonical_path crates entry.path)
  bytes ← read (λ d. load_object crates entry d.objects)
  write_new_file entry.path bytes
  materialize_entries crates entries

-- `materialize_to`, whose target is `site.staging` in a project
unfoldable pub materialize_to : Crates → RevisionManifest → Io Unit
unfolding remove_internal_tree_if_present create_dir materialize_entries sync_directory
materialize_to crates manifest = do
  remove_internal_tree_if_present at_staging
  create_dir
  materialize_entries crates manifest.files
  sync_directory

-- The pointer that the marker of a transaction tells.
abbrev pub pointer_of_marker : TransactionMarker → CurrentPointer
pointer_of_marker marker = record {
  schema_version = storage_schema;
  revision_id = marker.target_revision_id;
  canonical_manifest_sha256 = marker.canonical_manifest_sha256;
  artifact_manifest_sha256 = marker.artifact_manifest_sha256;
}

abbrev pub marker_of_pointer : CurrentPointer → TransactionMarker
marker_of_pointer pointer = record {
  schema_version = storage_schema;
  target_revision_id = pointer.revision_id;
  canonical_manifest_sha256 = pointer.canonical_manifest_sha256;
  artifact_manifest_sha256 = pointer.artifact_manifest_sha256;
}

unfoldable pub write_transaction : CurrentPointer → Io Unit
unfolding act
write_transaction pointer = act (λ d. record d { transaction = some (marker_of_pointer pointer) })

unfoldable pub write_current : CurrentPointer → Io Unit
unfolding act
write_current pointer = act (λ d. record d { current = some pointer })

-- `remove_internal_file_if_present` of `transaction.json`
unfoldable pub remove_transaction : Io Unit
unfolding act
remove_transaction = act (λ d. record d { transaction = none })

-- `if site.exists() { rename_internal(&site, &backup)?; }`
unfoldable pub keep_backup : Io Unit
unfolding rename_internal
keep_backup fates d =
    if is_some d.site then rename_internal at_site at_backup fates d else ran (done tt) fates d

-- What the error branch of the last rename does, whose own error is dropped.
unfoldable pub put_back : Io Unit
unfolding rename_internal
put_back fates d =
    if is_some d.backup && not (is_some d.site)
    then rename_internal at_backup at_site fates d
    else ran (done tt) fates d

unfoldable pub publish_staging : Io Unit
unfolding rename_internal put_back
publish_staging fates d = or_else (rename_internal at_staging at_site fates d) put_back

abbrev pub manifest_of : Text → Text → List StoredFile → RevisionManifest
manifest_of revision_id artifact_manifest_sha256 files = record {
  schema_version = storage_schema;
  revision_id = revision_id;
  artifact_manifest_sha256 = artifact_manifest_sha256;
  files = files;
}

abbrev pub pointer_to : Crates → StorageCrates → RevisionManifest → CurrentPointer
pointer_to crates others manifest = record {
  schema_version = storage_schema;
  revision_id = manifest.revision_id;
  canonical_manifest_sha256 = sha256 crates (others.canonical_json manifest);
  artifact_manifest_sha256 = manifest.artifact_manifest_sha256;
}

-- `commit_revision_at`, from the marker of the transaction on.
unfoldable pub switch_to : Crates → RevisionManifest → CurrentPointer → Io Unit
unfolding write_transaction materialize_to remove_internal_tree_if_present keep_backup
    publish_staging write_current sync_directory remove_transaction
switch_to crates manifest pointer = do
  write_transaction pointer
  materialize_to crates manifest
  remove_internal_tree_if_present at_backup
  keep_backup
  publish_staging
  write_current pointer
  sync_directory
  remove_internal_tree_if_present at_backup
  remove_transaction

unfoldable pub commit_stored :
    Crates → StorageCrates → Text → Text → Files → List StoredFile → Io Unit
unfolding write_objects write_revision sha256 switch_to
commit_stored crates others revision_id artifact_manifest_sha256 files stored = do
  write_objects crates files stored
  write_revision revision_id
      (others.canonical_json (manifest_of revision_id artifact_manifest_sha256 stored))
  switch_to crates (manifest_of revision_id artifact_manifest_sha256 stored)
      (pointer_to crates others (manifest_of revision_id artifact_manifest_sha256 stored))

unfoldable pub commit_revision_at : Crates → StorageCrates → Text → Text → Files → Io Unit
unfolding validate_identifier validate_digits stored_files commit_stored
commit_revision_at crates others revision_id artifact_manifest_sha256 files = do
  of_result (validate_identifier revision_id (codes "rev_"))
  of_result (validate_digits 64 artifact_manifest_sha256)
  stored ← of_result (stored_files crates others files)
  commit_stored crates others revision_id artifact_manifest_sha256 files stored
