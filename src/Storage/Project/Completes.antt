-- ===== src/Storage/Project/Completes.antt =====
-- apps/local-server/src/storage.rs: the commit that nothing disturbs.
use synapsegit_lp_studio.Storage.Paths.{validate_digits, import_limit, validate_identifier}
use synapsegit_lp_studio.Storage.Disk.{Disk, Io, StoredFile, act, done, ran, read}
use synapsegit_lp_studio.Storage.Files.{
  StorageCrates, max_file_bytes, stored_files_from, max_files, stored_files, stored_file_eq,
  pointer_eq,
}
use synapsegit_lp_studio.Storage.Project.{
  write_object, write_objects, write_revision, commit_revision_at, commit_stored, switch_to,
}
use synapsegit_lp_studio.Storage.Files.Round.{stored_round}
use synapsegit_lp_studio.Storage.Project.Committed.{DigestsAreValid, Commit, switch_of}
use synapsegit_lp_studio.ChangeSet.Types.{Crates, Files}
use synapsegit_lp_studio.ChangeSet.Path.{sha256}
use synapsegit_lp_studio.Storage.Project.Recoverable.{Settled}
use synapsegit_lp_studio.Storage.Project.Commit.{switch_to-Triple}
use synapsegit_lp_studio.Storage.Project.Written.{write_objects-Triple, write_revision-Triple}
use synapsegit_lp_studio.Storage.Project.Committing.{
  Start, Supplied, Supplied-kept, ready, start-kept_by_objects,
}
use synapsegit_lp_studio.Storage.Project.Crash.{Settled-Verifies, Verifies, post-done, post-ends}
use synapsegit_lp_studio.Prelude.{
  ==_iff, ==_refl, All, Bool-cases, List, [], ap, arith, false, inl, inr, length, list_eq, ltb,
  nat_eq, none, ok, ok_injective, pair_eq, refl, reject_if, seq-eq-ok, some, subst, sym, true, ℕ,
  ◌+◌, ◌==◌, ◌∙◌, ◌∷◌, ◌≡◌, ◌⊎◌,
}
use synapsegit_lp_studio.Prelude.Text.{Bytes, Text, codes}
use synapsegit_lp_studio.Prelude.Map.{BTreeMap}
use synapsegit_lp_studio.Prelude.Set.{HashSet}
use synapsegit_lp_studio.Prelude.Map
use synapsegit_lp_studio.Prelude.Set

-- No other bytes are stored under the digest of these.
abbrev pub Agrees : Crates → Bytes → Disk → Type 0
Agrees crates bytes d =
    (Map.get (sha256 crates bytes) d.objects ≡ none)
    ⊎ (Map.get (sha256 crates bytes) d.objects ≡ some bytes)

abbrev pub ApartFrom : Crates → Bytes → Files → Type 0
ApartFrom crates bytes files =
    All (λ file. sha256 crates bytes ≡ sha256 crates file.1 → bytes ≡ file.1) files

-- Different files have different digests.
abbrev pub NoCollision : Crates → Files → Type 0
NoCollision crates [] = Unit
NoCollision crates ((path, bytes) ∷ files) = ApartFrom crates bytes files × NoCollision crates files

object_agrees :
    (crates : Crates) (a b : Bytes) (objects : BTreeMap Bytes)
    → (sha256 crates a ≡ sha256 crates b → a ≡ b)
    → (Map.get (sha256 crates b) objects ≡ none) ⊎ (Map.get (sha256 crates b) objects ≡ some b)
    → (Map.get (sha256 crates b) (Map.insert (sha256 crates a) a objects) ≡ none)
      ⊎ (Map.get (sha256 crates b) (Map.insert (sha256 crates a) a objects) ≡ some b)
object_agrees crates a b objects apart agrees =
    let inserted = Map.get-insert (sha256 crates a) (sha256 crates b) a objects in
    elim (Bool-cases (sha256 crates a == sha256 crates b)) [
      | inl e ↦
          let same = apart ((==_iff (sha256 crates a) (sha256 crates b)).0 e) in
          inr (inserted ∙ rw e (ap some same))
      | inr e ↦
          let found : Map.get (sha256 crates b) (Map.insert (sha256 crates a) a objects)
              ≡ Map.get (sha256 crates b) objects =
            inserted ∙ rw e refl in
          rw found agrees
    ]

files_kept_apart :
    (crates : Crates) (a : Bytes) (files : Files) (d : Disk)
    → ApartFrom crates a files
    → All (λ file. Agrees crates file.1 d) files
    → All
        (λ file.
          Agrees crates file.1 (record d { objects = Map.insert (sha256 crates a) a d.objects }))
        files
files_kept_apart crates a [] d apart agree = tt
files_kept_apart crates a ((path, bytes) ∷ files) d (here, apart) (agrees, agree) = (
  object_agrees crates a bytes d.objects here agrees,
  files_kept_apart crates a files d apart agree,
)

-- The step goes through, and keeps the revisions and what a property of the objects says.
abbrev Goes : Io Unit → (Disk → Type 0) → Disk → Type 0
Goes m P d = (e : Disk) × (m [] d ≡ ran (done tt) [] e) × (e.revisions ≡ d.revisions) × P e

write_object-Goes :
    (crates : Crates) (bytes : Bytes) (files : Files) (d : Disk)
    → validate_digits 64 (sha256 crates bytes) ≡ ok tt
    → ltb max_file_bytes (length bytes) ≡ false
    → Agrees crates bytes d
    → ApartFrom crates bytes files
    → All (λ file. Agrees crates file.1 d) files
    → Goes
        (write_object crates (sha256 crates bytes) bytes)
        (λ e. All (λ file. Agrees crates file.1 e) files)
        d
unfolding write_object read act
write_object-Goes crates bytes files d valid small (inl absent) apart agree = (
  record d { objects = Map.insert (sha256 crates bytes) bytes d.objects },
  rw (valid, ==_refl (sha256 crates bytes), absent) refl,
  refl,
  files_kept_apart crates bytes files d apart agree,
)
write_object-Goes crates bytes files d valid small (inr there) apart agree =
    (d, rw (valid, ==_refl (sha256 crates bytes), there, ==_refl bytes, small) refl, refl, agree)

write_objects-Goes :
    (crates : Crates) (others : StorageCrates) (all_files files : Files) (folded : HashSet Text)
    (total : ℕ) (entries : List StoredFile) (d : Disk)
    → DigestsAreValid crates
    → All (λ file. Map.get file.0 all_files ≡ some file.1) files
    → NoCollision crates files
    → All (λ file. Agrees crates file.1 d) files
    → stored_files_from crates others files folded total ≡ ok entries
    → Goes (write_objects crates all_files entries) (λ e. Unit) d
unfolding stored_files_from write_objects
write_objects-Goes crates others all_files [] folded total entries d digests found apart agree h =
    subst (λ es. Goes (write_objects crates all_files es) (λ e. Unit) d) (ok_injective h)
      (d, refl, refl, tt)
write_objects-Goes crates others all_files ((path, bytes) ∷ files) folded total entries d digests
      (here, found) (first, apart) (agrees, agree) h =
    let seen = Set.insert (crates.folded path) folded in
    let r = stored_round crates others path bytes files folded total entries h in
    let (e, wrote, kept, still) =
      write_object-Goes crates bytes files d (digests bytes) r.is_small agrees first agree in
    let (e', wrote', kept', unit) =
      write_objects-Goes crates others all_files files seen (total + length bytes) r.more e digests
        found apart still r.are_more in
    subst (λ es. Goes (write_objects crates all_files es) (λ e. Unit) d) r.joined
      (e', rw (here, wrote, wrote') refl, kept' ∙ kept, tt)

write_revision-goes :
    (revision_id : Text) (bytes : Bytes) (d : Disk)
    → ltb max_file_bytes (length bytes) ≡ false
    → (Map.get revision_id d.revisions ≡ none) ⊎ (Map.get revision_id d.revisions ≡ some bytes)
    → (e : Disk) × (write_revision revision_id bytes [] d ≡ ran (done tt) [] e)
unfolding write_revision read act
write_revision-goes revision_id bytes d small (inl absent) =
    (record d { revisions = Map.insert revision_id bytes d.revisions }, rw absent refl)
write_revision-goes revision_id bytes d small (inr there) =
    (d, rw (there, ==_refl bytes, small) refl)

module _ (crates : Crates) (others : StorageCrates) (c : Commit crates others) (d : Disk)
    (digests : DigestsAreValid crates) (start : Start crates others (switch_of c) d)
    (apart : NoCollision crates c.files)
    (agree : All (λ file. Agrees crates file.1 d) c.files) where
  -- The objects are written, and then the manifest.
  objects-Supplied :
      (e : Disk) × (write_objects crates c.files c.stored [] d ≡ ran (done tt) [] e)
      × (e.revisions ≡ d.revisions)
      × Supplied crates others c digests e
  unfolding stored_files
  objects-Supplied =
      let (few, listed) =
        seq-eq-ok (reject_if (ltb max_files (length c.files)) import_limit) _ c.storable in
      let (e, wrote, kept, unit) =
        write_objects-Goes crates others c.files c.files [] 0 c.stored d digests c.is_map.found
          apart agree listed in
      let rule =
        write_objects-Triple crates others (Start crates others (switch_of c)) c.files c.files [] 0
          c.stored (start-kept_by_objects crates others (switch_of c)) c.is_map.found listed in
      (e, wrote, kept, post-done _ tt e wrote (rule.runs [] d start))

  manifest_written :
      (e : Disk)
      → Supplied crates others c digests e
      → (Map.get c.revision_id e.revisions ≡ none)
        ⊎ (Map.get c.revision_id e.revisions
            ≡ some (others.canonical_json (switch_of c).new_manifest))
      → (e' : Disk) × (write_revision c.revision_id
            (others.canonical_json (switch_of c).new_manifest)
            []
            e
          ≡ ran (done tt) [] e')
        × (Supplied crates others c digests e'
            × (Map.get c.revision_id e'.revisions
                ≡ some (others.canonical_json (switch_of c).new_manifest)))
  manifest_written e supplied free =
      let json = others.canonical_json (switch_of c).new_manifest in
      let small : ltb max_file_bytes (length json) ≡ false = ground (arith, c.readable) in
      let (e', wrote) = write_revision-goes c.revision_id json e small free in
      let rule =
        write_revision-Triple (Supplied crates others c digests) c.revision_id json
          (Supplied-kept crates others c digests) in
      (e', wrote, post-done _ tt e' wrote (rule.runs [] e supplied))

-- A commit that nothing disturbs goes through, and switches the project, which verifies at the new
-- revision, with its site in place, and with no backup and no transaction: where the project is
-- settled, the identifier and the hash have their form, different files have different digests, the
-- objects that are stored under those digests are these files, and there is no other manifest under
-- the identifier.
pub commit_revision_at-ends :
    (crates : Crates) (others : StorageCrates) (c : Commit crates others) (d : Disk)
    → DigestsAreValid crates
    → Start crates others (switch_of c) d
    → NoCollision crates c.files
    → All (λ file. Agrees crates file.1 d) c.files
    → validate_identifier c.revision_id (codes "rev_") ≡ ok tt
    → validate_digits 64 c.artifact_manifest_sha256 ≡ ok tt
    → (Map.get c.revision_id d.revisions ≡ none)
      ⊎ (Map.get c.revision_id d.revisions
          ≡ some (others.canonical_json (switch_of c).new_manifest))
    → (e : Disk) × (commit_revision_at crates others c.revision_id c.artifact_manifest_sha256
          c.files [] d
        ≡ ran (done tt) [] e)
      × Verifies crates others (switch_of c).new e
      × Settled crates others (switch_of c) (switch_of c).new (switch_of c).new_manifest e
unfolding commit_revision_at commit_stored
commit_revision_at-ends crates others c d digests start apart agree id artifact free =
    let s = switch_of c in
    let json = others.canonical_json s.new_manifest in
    let (d₁, wrote, kept, supplied) =
      objects-Supplied crates others c d digests start apart agree in
    let still_free =
      subst (λ m. (Map.get c.revision_id m ≡ none) ⊎ (Map.get c.revision_id m ≡ some json))
        (sym kept) free in
    let (d₂, wrote_manifest, now) =
      manifest_written crates others c d digests start apart agree d₁ supplied still_free in
    let (e, ends, (retained, settled)) = post-ends (switch_to crates s.new_manifest s.new [] d₂) (
      (switch_to-Triple crates others s true).runs [] d₂
        (ready crates others c digests d₂ id artifact now)) in
    (
      e,
      rw (id, artifact, c.storable, wrote, wrote_manifest, ends) refl,
      Settled-Verifies crates others s s.new s.new_manifest s.new_files e retained settled,
      settled,
    )
