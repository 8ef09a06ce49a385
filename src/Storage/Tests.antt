-- ===== src/Storage/Tests.antt =====
-- apps/local-server/src/storage.rs: runs on a project of one file.
use synapsegit_lp_studio.Storage.Paths.{
  drift, validate_digits, is_hex_byte, is_unsafe_path, is_unsafe_segment, validate_identifier,
}
use synapsegit_lp_studio.Storage.Disk.{
  CurrentPointer, Disk, Fate, RevisionManifest, StoredFile, done, fails, happens, ran, stops,
}
use synapsegit_lp_studio.Storage.Files.{
  StorageCrates, scan_materialized, stored_files, validate_pointer, stored_file_eq, pointer_eq,
}
use synapsegit_lp_studio.Storage.Manifest.{read_manifest_from_root}
use synapsegit_lp_studio.Storage.Project.{commit_revision_at, manifest_of, pointer_to}
use synapsegit_lp_studio.Storage.Project.Recoverable.{built}
use synapsegit_lp_studio.Storage.Project.Written.{IsBTreeMap}
use synapsegit_lp_studio.Storage.Project.Committed.{Commit, DigestsAreValid, switch_of}
use synapsegit_lp_studio.Storage.Project.Committing.{Start}
use synapsegit_lp_studio.ChangeSet.Types.{Crates, Files}
use synapsegit_lp_studio.ChangeSet.Path.{sha256}
use synapsegit_lp_studio.Storage.Project.Completes.{Agrees, NoCollision}
use synapsegit_lp_studio.Prelude.{
  All, List, [], all, ap, false, if◌then◌else◌, inl, length, list_beq, list_beq_iff, list_eq, map,
  map_err, nat_eq, none, ok, refl, some, true, ℕ, ◌++◌, ◌==◌, ◌∷◌, ◌≡◌, ◌≢◌,
}
use synapsegit_lp_studio.Prelude.Text.{Bytes, Text, as_bytes, codes, len, split, to_ascii_lowercase}
use synapsegit_lp_studio.Prelude.Map

-- A digest that tells texts of different lengths apart, up to 2.
abbrev pub tag : Bytes → ℕ
tag [] = 0
tag (x ∷ []) = 1
tag (x ∷ y ∷ []) = 2
tag _ = 3

abbrev pub zeros : Bytes
zeros = map (λ c. 0) (codes "0000000000000000000000000000000")

abbrev pub store_crates : Crates
store_crates = record {
  nfc = λ t. t;
  folded = to_ascii_lowercase;
  digest = λ bytes. tag bytes ∷ zeros;
  unicode_lowercase = λ t. t;
  parse_url = λ t. none;
  set_username = λ username url. some (record url { username = username });
  set_password = λ password url. some (record url { password = password });
  set_query = λ query url. record url { query = query };
  set_fragment = λ fragment url. record url { fragment = fragment };
  as_str = λ url. url.origin ++ url.path;
}

pub digests_valid : DigestsAreValid store_crates
unfolding validate_digits sha256 len all as_bytes is_hex_byte
digests_valid [] = refl
digests_valid (x ∷ []) = refl
digests_valid (x ∷ y ∷ []) = refl
digests_valid (x ∷ y ∷ z ∷ t) = refl

abbrev pub old_id : Text
old_id = codes "rev_00000000000000000000000000000000"

abbrev pub new_id : Text
new_id = codes "rev_11111111111111111111111111111111"

abbrev pub artifact : Text
artifact = codes "0000000000000000000000000000000000000000000000000000000000000000"

abbrev pub files_before : Files
files_before = (codes "index.html", codes "a") ∷ []

abbrev pub files_after : Files
files_after = (codes "index.html", codes "bc") ∷ []

abbrev pub text_type : Text → Text
text_type path = codes "text/html"

-- The encoding of a manifest is its revision here.
abbrev pub stored_of : Bytes → List StoredFile
stored_of bytes =
    record {
      path = codes "index.html";
      media_type = codes "text/html";
      byte_length = length bytes;
      sha256_of_file = sha256 store_crates bytes;
    }
    ∷ []

abbrev pub manifest_before : RevisionManifest
manifest_before = manifest_of old_id artifact (stored_of (codes "a"))

abbrev pub manifest_after : RevisionManifest
manifest_after = manifest_of new_id artifact (stored_of (codes "bc"))

abbrev pub store_others : StorageCrates
store_others = record {
  media_type = text_type;
  canonical_json = λ manifest. manifest.revision_id;
  from_slice = λ bytes.
      if bytes == old_id
      then some manifest_before
      else if bytes == new_id
      then some manifest_after
      else none;
}

abbrev pub pointer_before : CurrentPointer
pointer_before = pointer_to store_crates store_others manifest_before

pub ids_differ : old_id ≢ new_id
unfolding list_beq
ids_differ e = let h : false ≡ true = (list_beq_iff old_id new_id).1 e in absurd (cc h)

pub stored_after : stored_files store_crates store_others files_after ≡ ok (stored_of (codes "bc"))
unfolding stored_files is_unsafe_path len list_beq split is_unsafe_segment
stored_after = refl

stored_before : stored_files store_crates store_others files_before ≡ ok (stored_of (codes "a"))
unfolding stored_files is_unsafe_path len list_beq split is_unsafe_segment
stored_before = refl

pub decodes_after : store_others.from_slice new_id ≡ some manifest_after
unfolding list_beq
decodes_after = refl

pub map_after : IsBTreeMap files_after
unfolding Map.get built list_beq
map_after = record { found = (refl, tt); increasing = (refl, tt); rebuilt = refl }

abbrev pub the_commit : Commit store_crates store_others
the_commit = record {
  old = pointer_before;
  old_manifest = manifest_before;
  old_files = files_before;
  revision_id = new_id;
  artifact_manifest_sha256 = artifact;
  files = files_after;
  stored = stored_of (codes "bc");
  storable = stored_after;
  is_map = map_after;
  differ = ids_differ;
  decodes = decodes_after;
  readable = refl;
}

abbrev pub disk_before : Disk
disk_before = record {
  objects = (sha256 store_crates (codes "a"), codes "a") ∷ [];
  site = some files_before;
  backup = none;
  staging = none;
  revisions = (old_id, old_id) ∷ [];
  current = some pointer_before;
  transaction = none;
}

reads_before :
    read_manifest_from_root store_crates store_others pointer_before ((old_id, old_id) ∷ [])
    ≡ ok manifest_before
unfolding read_manifest_from_root list_beq len all as_bytes is_hex_byte is_unsafe_path split
    is_unsafe_segment
reads_before = refl

valid_before : validate_pointer pointer_before ≡ ok tt
unfolding validate_pointer list_beq len all as_bytes is_hex_byte sha256
valid_before = refl

object_before :
    Map.get (sha256 store_crates (codes "a")) ((sha256 store_crates (codes "a"), codes "a") ∷ [])
    ≡ some (codes "a")
unfolding Map.get sha256 list_beq
object_before = refl

rebuilt_before : built [] files_before ≡ files_before
unfolding built
rebuilt_before = refl

shows_before :
    scan_materialized store_crates store_others (some files_before) ≡ ok (stored_of (codes "a"))
unfolding scan_materialized
shows_before = ap (map_err (λ e. drift)) stored_before

pub starts : Start store_crates store_others (switch_of the_commit) disk_before
starts = (
  record {
    reads = reads_before;
    valid = valid_before;
    described = stored_before;
    in_objects = (object_before, tt);
    ordered = rebuilt_before;
  },
  record { is_current = refl; no_transaction = refl; no_backup = refl; site_shows = shows_before },
)

-- The disk after a commit that nothing disturbs.
abbrev pub disk_after : Disk
disk_after = record {
  objects =
      (sha256 store_crates (codes "a"), codes "a")
      ∷ (sha256 store_crates (codes "bc"), codes "bc")
      ∷ [];
  site = some files_after;
  backup = none;
  staging = none;
  revisions = (old_id, old_id) ∷ (new_id, new_id) ∷ [];
  current = some (switch_of the_commit).new;
  transaction = none;
}

pub commits :
    commit_revision_at store_crates store_others new_id artifact files_after [] disk_before
    ≡ ran (done tt) [] disk_after
unfolding commit_revision_at len all as_bytes is_hex_byte is_unsafe_path list_beq split
    is_unsafe_segment Map.text_lt
commits = refl

pub new_id_valid : validate_identifier new_id (codes "rev_") ≡ ok tt
unfolding validate_identifier validate_digits len all as_bytes is_hex_byte
new_id_valid = refl

pub artifact_valid : validate_digits 64 artifact ≡ ok tt
unfolding validate_digits len all as_bytes is_hex_byte
artifact_valid = refl

pub files_apart : NoCollision store_crates files_after
files_apart = (tt, tt)

pub files_agree : All (λ file. Agrees store_crates file.1 disk_before) files_after
unfolding Map.get list_beq sha256
files_agree = (inl refl, tt)

pub id_is_free : Map.get new_id disk_before.revisions ≡ none
unfolding Map.get list_beq
id_is_free = refl

-- The process stops before the new tree is renamed to the site, and the first recovery fails at once.
abbrev pub crash_fates : List Fate
crash_fates =
    happens
    ∷ happens
    ∷ happens
    ∷ happens
    ∷ happens
    ∷ happens
    ∷ happens
    ∷ happens
    ∷ happens
    ∷ happens
    ∷ happens
    ∷ stops false none
    ∷ []

abbrev pub recovery_fates : List (List Fate)
recovery_fates = (happens ∷ fails false none ∷ []) ∷ []
