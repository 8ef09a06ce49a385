-- ===== src/Storage/Project/Committing.antt =====
-- apps/local-server/src/storage.rs: the run of `commit_revision_at`, from a settled project on.
use synapsegit_lp_studio.Storage.Disk.{CurrentPointer, Disk, RevisionManifest}
use synapsegit_lp_studio.Storage.Files.{StorageCrates, max_files, stored_files}
use synapsegit_lp_studio.Storage.Manifest.{decode_manifest, or_corrupt, read_manifest_from_root}
use synapsegit_lp_studio.Storage.Project.Recoverable.{
  RetainsOld, Settled, Switch, Recoverable, not_begun,
}
use synapsegit_lp_studio.Storage.Project.Written.{
  KeptByObjects, KeptByRevisions, kept_by_insert, HasObject, write_objects-Triple,
  write_revision-Triple,
}
use synapsegit_lp_studio.ChangeSet.Types.{Crates, Files}
use synapsegit_lp_studio.Storage.Paths.{corrupt, import_limit, validate_digits, validate_identifier}
use synapsegit_lp_studio.Storage.Project.{commit_revision_at, commit_stored}
use synapsegit_lp_studio.Storage.Disk.Triple.{
  Triple, bind-Triple, known-Triple, loosen-Triple, passed-Triple, seq-Triple, tried_then-Triple,
  weaken-Triple,
}
use synapsegit_lp_studio.Storage.Project.Commit.{IsSwitched, ReadyToSwitch, switch_to-Triple}
use synapsegit_lp_studio.Storage.Project.Committed.{
  Commit, DigestsAreValid, switch_of, manifest-reads, pointer-valid,
}
use synapsegit_lp_studio.ChangeSet.Path.{sha256}
use synapsegit_lp_studio.Prelude.{
  All, Option-cases, [], ap, err, false, inl, inr, length, ltb, none, ok, reject_if, seq-eq-ok,
  some, sym, ◌>>=◌, ◌∙◌, ◌∷◌, ◌≡◌,
}
use synapsegit_lp_studio.Prelude.Text.{Bytes, Text, codes}
use synapsegit_lp_studio.Prelude.Map.{BTreeMap}
use synapsegit_lp_studio.Prelude.Map

-- What a commit starts from: the current revision can be had back, and nothing is under way.
abbrev pub Start : (crates : Crates) (others : StorageCrates) → Switch → Disk → Type 0
Start crates others s d =
    RetainsOld crates others s d × Settled crates others s s.old s.old_manifest d

old-reads-kept :
    (crates : Crates) (others : StorageCrates) (pointer : CurrentPointer)
    (manifest : RevisionManifest) (k : Text) (v : Bytes) (revisions : BTreeMap Bytes)
    → read_manifest_from_root crates others pointer revisions ≡ ok manifest
    → Map.get k revisions ≡ none
    → read_manifest_from_root crates others pointer (Map.insert k v revisions) ≡ ok manifest
unfolding read_manifest_from_root
old-reads-kept crates others pointer manifest k v revisions reads absent =
    elim (Option-cases (Map.get pointer.revision_id revisions)) [
      | inl missing ↦
          let nothing : err corrupt ≡ ok manifest =
            ap (λ o. or_corrupt o >>= λ b. decode_manifest crates others pointer b) (sym missing)
            ∙ reads in
          absurd (cc nothing)
      | inr (bytes, there) ↦
          let before : (or_corrupt (Map.get pointer.revision_id revisions) >>= λ b.
          decode_manifest crates others pointer b)
              ≡ ok manifest =
            reads in
          ap (λ o. or_corrupt o >>= λ b. decode_manifest crates others pointer b)
            (kept_by_insert k pointer.revision_id v bytes revisions absent there ∙ sym there)
          ∙ before
    ]

objects_kept :
    (crates : Crates) (files : Files) (k : Text) (v : Bytes) (objects : BTreeMap Bytes)
    → Map.get k objects ≡ none
    → All (λ file. Map.get (sha256 crates file.1) objects ≡ some file.1) files
    → All (λ file. Map.get (sha256 crates file.1) (Map.insert k v objects) ≡ some file.1) files
objects_kept crates [] k v objects absent there = tt
objects_kept crates ((path, bytes) ∷ files) k v objects absent (here, there) = (
  kept_by_insert k (sha256 crates bytes) v bytes objects absent here,
  objects_kept crates files k v objects absent there,
)

pub start-kept_by_objects :
    (crates : Crates) (others : StorageCrates) (s : Switch) → KeptByObjects (Start crates others s)
start-kept_by_objects crates others s d k v (kept, settled) absent = (
  record {
    reads = kept.reads;
    valid = kept.valid;
    described = kept.described;
    in_objects = objects_kept crates s.old_files k v d.objects absent kept.in_objects;
    ordered = kept.ordered;
  },
  record {
    is_current = settled.is_current;
    no_transaction = settled.no_transaction;
    no_backup = settled.no_backup;
    site_shows = settled.site_shows;
  },
)

start-kept_by_revisions :
    (crates : Crates) (others : StorageCrates) (s : Switch)
    → KeptByRevisions (Start crates others s)
start-kept_by_revisions crates others s d k v (kept, settled) absent = (
  record {
    reads = old-reads-kept crates others s.old s.old_manifest k v d.revisions kept.reads absent;
    valid = kept.valid;
    described = kept.described;
    in_objects = kept.in_objects;
    ordered = kept.ordered;
  },
  record {
    is_current = settled.is_current;
    no_transaction = settled.no_transaction;
    no_backup = settled.no_backup;
    site_shows = settled.site_shows;
  },
)

module _ (crates : Crates) (others : StorageCrates) (c : Commit crates others)
    (digests : DigestsAreValid crates) where
  abbrev pub SafeForCommit : Disk → Type 0
  SafeForCommit = Recoverable crates others (switch_of c)

  start-Safe : (d : Disk) → Start crates others (switch_of c) d → SafeForCommit d
  start-Safe d (kept, settled) = not_begun kept settled

  abbrev pub Supplied : Disk → Type 0
  Supplied d = Start crates others (switch_of c) d × All (λ file. HasObject crates file.1 d) c.files

  pub Supplied-kept : KeptByRevisions Supplied
  Supplied-kept d k v (p, there) absent =
      (start-kept_by_revisions crates others (switch_of c) d k v p absent, there)

  pub ready :
      (d : Disk)
      → validate_identifier c.revision_id (codes "rev_") ≡ ok tt
      → validate_digits 64 c.artifact_manifest_sha256 ≡ ok tt
      → Supplied d
        × (Map.get c.revision_id d.revisions
            ≡ some (others.canonical_json (switch_of c).new_manifest))
      → ReadyToSwitch crates others (switch_of c) false d
  ready d id artifact (((kept, settled), there), written) = (
    kept,
    record {
      reads = manifest-reads crates others c d.revisions digests artifact written;
      valid = pointer-valid crates others c digests id artifact;
      described = c.storable;
      in_objects = there;
      ordered = c.is_map.rebuilt;
    },
    settled,
  )

  pub commit_revision_at-Triple :
      Triple false
        (Start crates others (switch_of c))
        (λ u. IsSwitched crates others (switch_of c) false)
        SafeForCommit
        (commit_revision_at crates others c.revision_id c.artifact_manifest_sha256 c.files)
  unfolding commit_revision_at commit_stored stored_files
  commit_revision_at-Triple =
      tried_then-Triple (validate_identifier c.revision_id (codes "rev_")) start-Safe (λ u id.
        tried_then-Triple (validate_digits 64 c.artifact_manifest_sha256) start-Safe (λ v artifact.
          bind-Triple (passed-Triple (stored_files crates others c.files) c.stored c.storable)
            (λ stored.
              known-Triple
                (commit_stored crates others c.revision_id c.artifact_manifest_sha256 c.files)
                c.stored stored
                (seq-Triple
                  (loosen-Triple start-Safe (
                    write_objects-Triple crates others (Start crates others (switch_of c)) c.files
                      c.files [] 0 c.stored (start-kept_by_objects crates others (switch_of c))
                      c.is_map.found
                      (seq-eq-ok (reject_if (ltb max_files (length c.files)) import_limit) _
                        c.storable).1))
                  (seq-Triple
                    (loosen-Triple (λ d p. start-Safe d p.0)
                      (write_revision-Triple Supplied c.revision_id
                        (others.canonical_json (switch_of c).new_manifest) Supplied-kept))
                    (weaken-Triple (λ d p. ready d id artifact p) (λ w d q. q)
                      (switch_to-Triple crates others (switch_of c) false)))))))
