-- ===== src/Storage/Files.antt =====
-- apps/local-server/src/storage.rs: the descriptions of a site's files, the pointers and the checks of
-- them.
pub mod Round
use synapsegit_lp_studio.Storage.Paths.{
  Stored, corrupt, drift, import_limit, unsafe_import, validate_canonical_path, validate_digits,
  validate_identifier,
}
use synapsegit_lp_studio.Storage.Disk.{CurrentPointer, RevisionManifest, StoredFile}
use synapsegit_lp_studio.ChangeSet.Types.{Crates, Files}
use synapsegit_lp_studio.ChangeSet.Path.{sha256}
use synapsegit_lp_studio.Prelude.{
  ==_iff, Bool, List, Option, PartialEq, [], ap, err, length, list_eq, ltb, map_err, nat_eq, none,
  not, ok, pair_eq, reject_if, some, true, ℕ, ◌+◌, ◌==◌, ◌>>=◌, ◌>>◌, ◌||◌, ◌↔◌, ◌∷◌, ◌≡◌,
}
use synapsegit_lp_studio.Prelude.Text.{Bytes, Text, codes}
use synapsegit_lp_studio.Prelude.Set.{HashSet}
use synapsegit_lp_studio.Prelude.Map
use synapsegit_lp_studio.Prelude.Set

abbrev pub storage_schema : Text
storage_schema = codes "1"

abbrev pub max_files : ℕ
max_files = 1000

abbrev pub max_total_bytes : ℕ
max_total_bytes = 209715200

abbrev pub max_file_bytes : ℕ
max_file_bytes = 20971520

-- What the store takes from other code: `mime_guess`, and `serde_json` for a manifest. To encode a
-- manifest, which is texts and numbers, does not fail.
pub record StorageCrates : Type 0 where
  pub media_type : Text → Text
  pub canonical_json : RevisionManifest → Bytes
  pub from_slice : Bytes → Option RevisionManifest

-- `derive(PartialEq)` of the two structs
abbrev pub stored_file_fields : StoredFile → List Text × ℕ
stored_file_fields f = (f.path ∷ f.media_type ∷ f.sha256_of_file ∷ [], f.byte_length)

abbrev of_fields : List Text × ℕ → StoredFile
of_fields (path ∷ media_type ∷ digest ∷ rest, byte_length) = record {
  path = path;
  media_type = media_type;
  byte_length = byte_length;
  sha256_of_file = digest;
}
of_fields (_, byte_length) = record {
  path = [];
  media_type = [];
  byte_length = byte_length;
  sha256_of_file = [];
}

pub stored_file_iff :
    (a b : StoredFile) → ((stored_file_fields a == stored_file_fields b) ≡ true) ↔ (a ≡ b)
stored_file_iff a b = (
  λ h. ap of_fields ((==_iff (stored_file_fields a) (stored_file_fields b)).0 h),
  λ e. (==_iff (stored_file_fields a) (stored_file_fields b)).1 (ap stored_file_fields e),
)

instance abbrev pub stored_file_eq : PartialEq StoredFile
stored_file_eq = record {
  test = λ a b. stored_file_fields a == stored_file_fields b;
  test_iff = stored_file_iff;
}

abbrev pub pointer_fields : CurrentPointer → List Text
pointer_fields p =
    p.schema_version ∷ p.revision_id ∷ p.canonical_manifest_sha256 ∷ p.artifact_manifest_sha256 ∷ []

abbrev of_pointer_fields : List Text → CurrentPointer
of_pointer_fields (schema_version ∷ revision_id ∷ canonical ∷ artifact ∷ rest) = record {
  schema_version = schema_version;
  revision_id = revision_id;
  canonical_manifest_sha256 = canonical;
  artifact_manifest_sha256 = artifact;
}
of_pointer_fields _ = record {
  schema_version = [];
  revision_id = [];
  canonical_manifest_sha256 = [];
  artifact_manifest_sha256 = [];
}

pub pointer_iff : (a b : CurrentPointer) → ((pointer_fields a == pointer_fields b) ≡ true) ↔ (a ≡ b)
pointer_iff a b = (
  λ h. ap of_pointer_fields ((==_iff (pointer_fields a) (pointer_fields b)).0 h),
  λ e. (==_iff (pointer_fields a) (pointer_fields b)).1 (ap pointer_fields e),
)

instance abbrev pub pointer_eq : PartialEq CurrentPointer
pointer_eq = record { test = λ a b. pointer_fields a == pointer_fields b; test_iff = pointer_iff }

abbrev pub stored_file : Crates → StorageCrates → Text → Bytes → StoredFile
stored_file crates others path bytes = record {
  path = path;
  media_type = others.media_type path;
  byte_length = length bytes;
  sha256_of_file = sha256 crates bytes;
}

-- The loop over the files; the sum of the lengths does not overflow, since it is below the limit
-- before each addition and a file has `max_file_bytes` at most.
unfoldable pub stored_files_from :
    Crates → StorageCrates → Files → HashSet Text → ℕ → Stored (List StoredFile)
unfolding validate_canonical_path Set.contains Set.insert sha256
stored_files_from crates others [] folded_paths total = ok []
stored_files_from crates others ((path, bytes) ∷ rest) folded_paths total = do
  validate_canonical_path crates path
  reject_if (Set.contains (crates.folded path) folded_paths) unsafe_import
  reject_if (ltb max_file_bytes (length bytes)) import_limit
  reject_if (ltb max_total_bytes (total + length bytes)) import_limit
  stored ←
      stored_files_from crates others rest (Set.insert (crates.folded path) folded_paths)
        (total + length bytes)
  ok (stored_file crates others path bytes ∷ stored)

unfoldable pub stored_files : Crates → StorageCrates → Files → Stored (List StoredFile)
unfolding stored_files_from
stored_files crates others files = do
  reject_if (ltb max_files (length files)) import_limit
  stored_files_from crates others files [] 0

-- `previous` of the loop in `validate_stored_files`
abbrev pub is_behind : Option Text → Text → Bool
is_behind none path = true
is_behind (some previous) path = Map.text_lt previous path

unfoldable pub validate_stored_from :
    Crates → StorageCrates → List StoredFile → Option Text → HashSet Text → ℕ → Stored Unit
unfolding validate_canonical_path validate_digits Map.text_lt Set.contains Set.insert
validate_stored_from crates others [] previous folded total = ok tt
validate_stored_from crates others (file ∷ files) previous folded total = do
  map_err (λ e. corrupt) (validate_canonical_path crates file.path)
  validate_digits 64 file.sha256_of_file
  reject_if
      (not (file.media_type == others.media_type file.path)
        || ltb max_file_bytes file.byte_length
        || not (is_behind previous file.path)
        || Set.contains (crates.folded file.path) folded)
      corrupt
  reject_if (ltb max_total_bytes (total + file.byte_length)) corrupt
  validate_stored_from crates others files (some file.path)
      (Set.insert (crates.folded file.path) folded) (total + file.byte_length)

unfoldable pub validate_stored_files : Crates → StorageCrates → List StoredFile → Stored Unit
unfolding validate_stored_from
validate_stored_files crates others files = do
  reject_if (ltb max_files (length files)) corrupt
  validate_stored_from crates others files none [] 0

unfoldable pub validate_pointer : CurrentPointer → Stored Unit
unfolding validate_identifier validate_digits
validate_pointer pointer = do
  reject_if (not (pointer.schema_version == storage_schema)) corrupt
  validate_identifier pointer.revision_id (codes "rev_")
  validate_digits 64 pointer.canonical_manifest_sha256
  validate_digits 64 pointer.artifact_manifest_sha256

-- `scan_materialized` of a tree
unfoldable pub scan_materialized : Crates → StorageCrates → Option Files → Stored (List StoredFile)
unfolding stored_files
scan_materialized crates others none = err drift
scan_materialized crates others (some files) =
    map_err (λ e. drift) (stored_files crates others files)
