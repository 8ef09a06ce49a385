-- ===== src/Storage/Manifest.antt =====
-- apps/local-server/src/storage.rs: how a manifest and its objects are read and checked.
use synapsegit_lp_studio.Storage.Paths.{Stored, corrupt, validate_digits}
use synapsegit_lp_studio.Storage.Disk.{CurrentPointer, RevisionManifest, StoredFile}
use synapsegit_lp_studio.Storage.Files.{
  StorageCrates, storage_schema, validate_stored_files, max_file_bytes, stored_file_eq, pointer_eq,
}
use synapsegit_lp_studio.ChangeSet.Types.{Crates}
use synapsegit_lp_studio.ChangeSet.Path.{sha256}
use synapsegit_lp_studio.Prelude.{
  Option, err, if◌then◌else◌, length, list_eq, ltb, map_err, nat_eq, none, not, ok, reject_if, some,
  ℕ, ◌&&◌, ◌==◌, ◌>>=◌, ◌>>◌, ◌||◌,
}
use synapsegit_lp_studio.Prelude.Text.{Bytes}
use synapsegit_lp_studio.Prelude.Map.{BTreeMap}
use synapsegit_lp_studio.Prelude.Map

-- the bound of `read_regular_file_bounded` on a manifest
abbrev pub max_manifest_bytes : ℕ
max_manifest_bytes = 4194304

abbrev pub or_corrupt : {A : Type 0} → Option A → Stored A
or_corrupt none = err corrupt
or_corrupt (some a) = ok a

-- `read_regular_file_exact` of an object, and the test of its hash
unfoldable pub checked_object : Crates → StoredFile → Option Bytes → Stored Bytes
unfolding sha256
checked_object crates entry none = err corrupt
checked_object crates entry (some bytes) =
    if not (ltb max_file_bytes entry.byte_length)
      && length bytes == entry.byte_length
      && sha256 crates bytes == entry.sha256_of_file
    then ok bytes
    else err corrupt

unfoldable pub load_object : Crates → StoredFile → BTreeMap Bytes → Stored Bytes
unfolding Map.get checked_object
load_object crates entry objects =
    checked_object crates entry (Map.get entry.sha256_of_file objects)

-- The tests of `read_manifest_from_root` behind the decoding.
unfoldable pub check_manifest :
    Crates → StorageCrates → CurrentPointer → Bytes → RevisionManifest → Stored RevisionManifest
unfolding validate_digits validate_stored_files
check_manifest crates others pointer bytes manifest = do
  reject_if
      (not (manifest.schema_version == storage_schema)
        || not (manifest.revision_id == pointer.revision_id)
        || not (manifest.artifact_manifest_sha256 == pointer.artifact_manifest_sha256))
      corrupt
  validate_digits 64 manifest.artifact_manifest_sha256
  reject_if (not (others.canonical_json manifest == bytes)) corrupt
  map_err (λ e. corrupt) (validate_stored_files crates others manifest.files)
  ok manifest

unfoldable pub decode_manifest :
    Crates → StorageCrates → CurrentPointer → Bytes → Stored RevisionManifest
unfolding sha256 check_manifest
decode_manifest crates others pointer bytes = do
  reject_if (ltb max_manifest_bytes (length bytes)) corrupt
  reject_if (not (sha256 crates bytes == pointer.canonical_manifest_sha256)) corrupt
  manifest ← or_corrupt (others.from_slice bytes)
  check_manifest crates others pointer bytes manifest

unfoldable pub read_manifest_from_root :
    Crates → StorageCrates → CurrentPointer → BTreeMap Bytes → Stored RevisionManifest
unfolding Map.get decode_manifest
read_manifest_from_root crates others pointer revisions = do
  bytes ← or_corrupt (Map.get pointer.revision_id revisions)
  decode_manifest crates others pointer bytes
