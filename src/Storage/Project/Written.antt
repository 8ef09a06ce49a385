-- ===== src/Storage/Project/Written.antt =====
-- apps/local-server/src/storage.rs: the objects and the manifest that a commit writes. What is there
-- stays.
use synapsegit_lp_studio.Storage.Paths.{validate_digits, StorageError, corrupt}
use synapsegit_lp_studio.Storage.Disk.{Disk, StoredFile, act, of_result, ◌>>◌}
use synapsegit_lp_studio.Storage.Files.{
  is_behind, StorageCrates, stored_files_from, stored_file_eq, pointer_eq,
}
use synapsegit_lp_studio.Storage.Project.{
  write_object, write_objects, write_revision, verify_immutable_bytes,
}
use synapsegit_lp_studio.Storage.Disk.Triple.{
  Triple, bind-Triple, tried-Triple, known-Triple, loosen-Triple, pass-Triple, seq-Triple,
  tried_then-Triple, weaken-Triple, passed-Triple,
}
use synapsegit_lp_studio.Storage.Project.Recoverable.{built}
use synapsegit_lp_studio.ChangeSet.Types.{Crates, Files}
use synapsegit_lp_studio.ChangeSet.Path.{sha256}
use synapsegit_lp_studio.Storage.Manifest.{or_corrupt}
use synapsegit_lp_studio.Storage.Files.Round.{stored_round}
use synapsegit_lp_studio.Storage.Disk.Effects.{act-Triple, read-Triple}
use synapsegit_lp_studio.Prelude.{
  ==_iff, ==_refl, All, Bool, List, Option, [], ap, arith, false, length, list_eq, nat_eq, none,
  not, ok, ok_injective, pair_eq, refl, reject_if, some, subst, true, ℕ, ◌+◌, ◌==◌, ◌||◌, ◌∙◌, ◌∷◌,
  ◌≡◌,
}
use synapsegit_lp_studio.Prelude.Text.{Bytes, Text}
use synapsegit_lp_studio.Prelude.Map.{BTreeMap}
use synapsegit_lp_studio.Prelude.Set.{HashSet}
use synapsegit_lp_studio.Prelude.Set
use synapsegit_lp_studio.Prelude.Map

-- What is true of the entries of every `BTreeMap`: each is found by its key, the keys increase, and
-- the entries rebuild the map.
abbrev pub Increasing : Option Text → Files → Type 0
Increasing previous [] = Unit
Increasing previous ((path, bytes) ∷ rest) =
    (is_behind previous path ≡ true) × Increasing (some path) rest

pub record IsBTreeMap (files : Files) : Type 0 where
  pub found : All (λ file. Map.get file.0 files ≡ some file.1) files
  pub increasing : Increasing none files
  pub rebuilt : built [] files ≡ files

-- A key that is there keeps its value when a key that is not there is inserted.
pub kept_by_insert :
    (k j : Text) (v w : Bytes) (m : BTreeMap Bytes)
    → Map.get k m ≡ none
    → Map.get j m ≡ some w
    → Map.get j (Map.insert k v m) ≡ some w
kept_by_insert k j v w m absent there = ground (arith, Map.get-insert k j v m, ==_iff k j)

there_by_insert :
    (k : Text) (v : Bytes) (m : BTreeMap Bytes) → Map.get k (Map.insert k v m) ≡ some v
there_by_insert k v m = ground (arith, Map.get-insert k k v m, ==_refl k)

-- A property of the disk that no new object changes.
abbrev pub KeptByObjects : (Disk → Type 0) → Type 0
KeptByObjects I =
    (d : Disk) (k : Text) (v : Bytes)
    → I d
    → Map.get k d.objects ≡ none
    → I (record d { objects = Map.insert k v d.objects })

abbrev pub HasObject : Crates → Bytes → Disk → Type 0
HasObject crates bytes d = Map.get (sha256 crates bytes) d.objects ≡ some bytes

same_of_test : (a b : Bool) (e : StorageError) → reject_if (a || not b) e ≡ ok tt → b ≡ true
same_of_test true b e h = cc
same_of_test false true e h = refl
same_of_test false false e h = cc

write_object-Triple :
    (crates : Crates) (I : Disk → Type 0) (bytes : Bytes)
    → KeptByObjects I
    → Triple false I
        (λ u d. I d × HasObject crates bytes d)
        I
        (write_object crates (sha256 crates bytes) bytes)
unfolding write_object
write_object-Triple crates I bytes kept =
    let digest = sha256 crates bytes in
    tried_then-Triple (validate_digits 64 digest) (λ d p. p)
      (λ u valid.
        tried_then-Triple (reject_if (not (sha256 crates bytes == digest)) corrupt) (λ d p. p)
          (λ v same.
            bind-Triple
              (read-Triple {Q = λ o d. (Map.get digest d.objects ≡ o) × I d}
                (λ d. ok (Map.get digest d.objects))
                (λ d p. (Map.get digest d.objects, refl, (refl, p))) (λ d p. p))
              by_existing))
  where
    by_existing :
        (o : Option Bytes)
        → Triple false
            (λ d. (Map.get (sha256 crates bytes) d.objects ≡ o) × I d)
            (λ u d. I d × HasObject crates bytes d)
            I
            (elim o [
              | none ↦
                  act (λ d. record d { objects = Map.insert (sha256 crates bytes) bytes d.objects })
              | some actual ↦ of_result (verify_immutable_bytes actual bytes)
            ])
    by_existing none =
        act-Triple {Q = λ d. I d × HasObject crates bytes d}
          (λ d. record d { objects = Map.insert (sha256 crates bytes) bytes d.objects })
          (λ d (absent, p).
            (kept d _ bytes p absent, there_by_insert (sha256 crates bytes) bytes d.objects))
          (λ d p. p.1) (λ d (absent, p). kept d _ bytes p absent)
    by_existing (some actual) =
        weaken-Triple (λ d p. p)
          (λ u d (same, (there, p)).
            (p, there ∙ ap some ((==_iff actual bytes).0 (same_of_test _ _ _ same))))
          (tried-Triple (verify_immutable_bytes actual bytes) (λ d p. p.1))

-- The loop writes the object of each file that is looked up among all the files.
pub write_objects-Triple :
    (crates : Crates) (others : StorageCrates) (I : Disk → Type 0) (all_files files : Files)
    (folded : HashSet Text) (total : ℕ) (entries : List StoredFile)
    → KeptByObjects I
    → All (λ file. Map.get file.0 all_files ≡ some file.1) files
    → stored_files_from crates others files folded total ≡ ok entries
    → Triple false I
        (λ u d. I d × All (λ file. HasObject crates file.1 d) files)
        I
        (write_objects crates all_files entries)
unfolding stored_files_from write_objects
write_objects-Triple crates others I all_files [] folded total entries kept found h =
    subst (λ es. Triple false I (λ u d. I d × Unit {0}) I (write_objects crates all_files es))
      (ok_injective h) (weaken-Triple (λ d p. p) (λ u d p. (p, tt)) (pass-Triple tt))
write_objects-Triple crates others I all_files ((path, bytes) ∷ files) folded total entries kept
      (here, found) h =
    let seen = Set.insert (crates.folded path) folded in
    let r = stored_round crates others path bytes files folded total entries h in
    let J : Disk → Type 0 = λ d. I d × HasObject crates bytes d in
    subst
      (λ es.
        Triple false I
          (λ u d. I d × (HasObject crates bytes d × All (λ file. HasObject crates file.1 d) files))
          I (write_objects crates all_files es))
      r.joined
      (bind-Triple (passed-Triple (or_corrupt (Map.get path all_files)) bytes (ap or_corrupt here))
        (λ b.
          known-Triple
            (λ c.
              write_object crates (sha256 crates bytes) c >> write_objects crates all_files r.more)
            bytes b
            (seq-Triple (write_object-Triple crates I bytes kept) (
              weaken-Triple (λ d p. p) (λ u d ((p, first), rest). (p, (first, rest)))
                (loosen-Triple (λ d p. p.0)
                  (write_objects-Triple crates others J all_files files seen (total + length bytes)
                    r.more
                    (λ d k v (p, held) absent.
                      (kept d k v p absent, kept_by_insert k _ v bytes d.objects absent held))
                    found r.are_more))))))

-- The manifest of a new revision.
abbrev pub KeptByRevisions : (Disk → Type 0) → Type 0
KeptByRevisions I =
    (d : Disk) (k : Text) (v : Bytes)
    → I d
    → Map.get k d.revisions ≡ none
    → I (record d { revisions = Map.insert k v d.revisions })

pub write_revision-Triple :
    (I : Disk → Type 0) (revision_id : Text) (bytes : Bytes)
    → KeptByRevisions I
    → Triple false I
        (λ u d. I d × (Map.get revision_id d.revisions ≡ some bytes))
        I
        (write_revision revision_id bytes)
unfolding write_revision
write_revision-Triple I revision_id bytes kept =
    bind-Triple
      (read-Triple {Q = λ o d. (Map.get revision_id d.revisions ≡ o) × I d}
        (λ d. ok (Map.get revision_id d.revisions))
        (λ d p. (Map.get revision_id d.revisions, refl, (refl, p))) (λ d p. p))
      by_existing
  where
    by_existing :
        (o : Option Bytes)
        → Triple false
            (λ d. (Map.get revision_id d.revisions ≡ o) × I d)
            (λ u d. I d × (Map.get revision_id d.revisions ≡ some bytes))
            I
            (elim o [
              | none ↦ act (λ d. record d { revisions = Map.insert revision_id bytes d.revisions })
              | some actual ↦ of_result (verify_immutable_bytes actual bytes)
            ])
    by_existing none =
        act-Triple {Q = λ d. I d × (Map.get revision_id d.revisions ≡ some bytes)}
          (λ d. record d { revisions = Map.insert revision_id bytes d.revisions })
          (λ d (absent, p).
            (kept d _ bytes p absent, there_by_insert revision_id bytes d.revisions))
          (λ d p. p.1) (λ d (absent, p). kept d _ bytes p absent)
    by_existing (some actual) =
        weaken-Triple (λ d p. p)
          (λ u d (same, (there, p)).
            (p, there ∙ ap some ((==_iff actual bytes).0 (same_of_test _ _ _ same))))
          (tried-Triple (verify_immutable_bytes actual bytes) (λ d p. p.1))
