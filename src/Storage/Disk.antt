-- ===== src/Storage/Disk.antt =====
-- apps/local-server/src/storage.rs: what the disk holds of a project, and the effects on it. An
-- operation runs against a list of fates, one for each effect: the effect happens, or fails with an
-- error, or the process stops there. A list that has ended lets every effect happen.
pub mod Triple
pub mod Effects
use synapsegit_lp_studio.Storage.Paths.{StorageError, Stored, io}
use synapsegit_lp_studio.ChangeSet.Types.{Files}
use synapsegit_lp_studio.Prelude.{
  Bool, List, Option, [], err, false, if◌then◌else◌, is_some, none, ok, some, true, ℕ, ◌&&◌, ◌∷◌,
}
use synapsegit_lp_studio.Prelude.Text.{Bytes, Text, codes, is_empty}
use synapsegit_lp_studio.Prelude.Map.{BTreeMap}

pub record StoredFile : Type 0 where
  pub path : Text
  pub media_type : Text
  pub byte_length : ℕ
  pub sha256_of_file : Text

pub record RevisionManifest : Type 0 where
  pub schema_version : Text
  pub revision_id : Text
  pub artifact_manifest_sha256 : Text
  pub files : List StoredFile

pub record CurrentPointer : Type 0 where
  pub schema_version : Text
  pub revision_id : Text
  pub canonical_manifest_sha256 : Text
  pub artifact_manifest_sha256 : Text

pub record TransactionMarker : Type 0 where
  pub schema_version : Text
  pub target_revision_id : Text
  pub canonical_manifest_sha256 : Text
  pub artifact_manifest_sha256 : Text

-- The objects of the store by their digests, and of the project's directory: the trees `site`,
-- `site.backup` and `site.staging`, the revisions' manifests by their identifiers, `current.json` and
-- `transaction.json`. A tree is its files by their paths.
pub record Disk : Type 0 where
  pub objects : BTreeMap Bytes
  pub site : Option Files
  pub backup : Option Files
  pub staging : Option Files
  pub revisions : BTreeMap Bytes
  pub current : Option CurrentPointer
  pub transaction : Option TransactionMarker

pub data Slot : Type 0 where
  at_site at_backup at_staging : Slot

abbrev pub tree_at : Slot → Disk → Option Files
tree_at at_site d = d.site
tree_at at_backup d = d.backup
tree_at at_staging d = d.staging

abbrev pub with_tree : Slot → Option Files → Disk → Disk
with_tree at_site t d = record d { site = t }
with_tree at_backup t d = record d { backup = t }
with_tree at_staging t d = record d { staging = t }

-- A fault of an effect on a single file or name comes before the effect or, if it is late, behind it.
-- A fault of an effect on a tree leaves any tree.
pub data Fate : Type 0 where
  happens : Fate
  fails stops : (late : Bool) (left : Option Files) → Fate

pub data Outcome (A : Type 0) : Type 0 where
  done : (value : A) → Outcome A
  failed : (error : StorageError) → Outcome A
  stopped : Outcome A

pub data Ran (A : Type 0) : Type 0 where
  ran : (outcome : Outcome A) (fates : List Fate) (disk : Disk) → Ran A

abbrev pub Io : Type 0 → Type 0
Io A = List Fate → Disk → Ran A

abbrev pub next : {A B : Type 0} → Ran A → (A → Io B) → Ran B
next (ran (done a) fates d) k = k a fates d
next (ran (failed e) fates d) k = ran (failed e) fates d
next (ran stopped fates d) k = ran stopped fates d

infixl 1 ◌>>=◌ ◌>>◌
abbrev pub ◌>>=◌ : {A B : Type 0} → Io A → (A → Io B) → Io B
m >>= k = λ fates d. next (m fates d) k

abbrev pub ◌>>◌ : {B : Type 0} → Io Unit → Io B → Io B
m >> k = λ fates d. next (m fates d) (λ u. k)

abbrev pub pass : {A : Type 0} → A → Io A
pass a fates d = ran (done a) fates d

abbrev pub error_of_disk : StorageError
error_of_disk = io (codes "I/O error")

-- An effect on a file or a name, and one on a tree.
unfoldable pub act : (Disk → Disk) → Io Unit
act f [] d = ran (done tt) [] (f d)
act f (happens ∷ fates) d = ran (done tt) fates (f d)
act f (fails late left ∷ fates) d = ran (failed error_of_disk) fates (if late then f d else d)
act f (stops late left ∷ fates) d = ran stopped fates (if late then f d else d)

unfoldable pub act_tree : Slot → Option Files → Io Unit
act_tree slot t [] d = ran (done tt) [] (with_tree slot t d)
act_tree slot t (happens ∷ fates) d = ran (done tt) fates (with_tree slot t d)
act_tree slot t (fails late left ∷ fates) d =
    ran (failed error_of_disk) fates (with_tree slot left d)
act_tree slot t (stops late left ∷ fates) d = ran stopped fates (with_tree slot left d)

abbrev pub of_result : {A : Type 0} → Stored A → Io A
of_result (ok a) fates d = ran (done a) fates d
of_result (err e) fates d = ran (failed e) fates d

-- What an operation reads; the reading may fail as well.
unfoldable pub read : {A : Type 0} → (Disk → Stored A) → Io A
read f [] d = of_result (f d) [] d
read f (happens ∷ fates) d = of_result (f d) fates d
read f (fails late left ∷ fates) d = ran (failed error_of_disk) fates d
read f (stops late left ∷ fates) d = ran stopped fates d

-- `Path::exists` of a name of the project, which answers.
abbrev pub exists : (Disk → Bool) → Io Bool
exists f fates d = ran (done (f d)) fates d

-- A test that reads, where an error of the reading is a no.
unfoldable pub succeeds : (Disk → Bool) → Io Bool
succeeds f [] d = ran (done (f d)) [] d
succeeds f (happens ∷ fates) d = ran (done (f d)) fates d
succeeds f (fails late left ∷ fates) d = ran (done false) fates d
succeeds f (stops late left ∷ fates) d = ran stopped fates d

-- `sync_directory`
unfoldable pub sync_directory : Io Unit
unfolding act
sync_directory = act (λ d. d)

abbrev pub removal : Slot → Option Files → Io Unit
removal slot none fates d = ran (done tt) fates d
removal slot (some tree) fates d = act_tree slot none fates d

unfoldable pub remove_internal_tree_if_present : Slot → Io Unit
unfolding act_tree
remove_internal_tree_if_present slot fates d = removal slot (tree_at slot d) fates d

abbrev pub is_vacant : Option Files → Bool
is_vacant none = true
is_vacant (some tree) = is_empty tree

abbrev pub moved : Slot → Slot → Disk → Disk
moved source destination d = with_tree source none (with_tree destination (tree_at source d) d)

-- `fs::rename` of a directory, to a name that is free or that of an empty one
unfoldable pub rename_internal : Slot → Slot → Io Unit
unfolding act
rename_internal source destination fates d =
    if is_some (tree_at source d) && is_vacant (tree_at destination d)
    then act (moved source destination) fates d
    else ran (failed error_of_disk) fates d

-- Runs the handler on an error, and returns the error.
abbrev pub cleanup : Ran Unit → StorageError → Ran Unit
cleanup (ran stopped fates d) error = ran stopped fates d
cleanup (ran outcome fates d) error = ran (failed error) fates d

abbrev pub or_else : Ran Unit → Io Unit → Ran Unit
or_else (ran (done u) fates d) handler = ran (done u) fates d
or_else (ran stopped fates d) handler = ran stopped fates d
or_else (ran (failed error) fates d) handler = cleanup (handler fates d) error
