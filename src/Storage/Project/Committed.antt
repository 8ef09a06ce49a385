-- ===== src/Storage/Project/Committed.antt =====
-- apps/local-server/src/storage.rs: the run of `commit_revision_at` as a whole.
use synapsegit_lp_studio.Storage.Paths.{
  import_limit, validate_canonical_path, validate_digits, validate_identifier,
}
use synapsegit_lp_studio.Storage.Disk.{CurrentPointer, RevisionManifest, StoredFile}
use synapsegit_lp_studio.Storage.Files.{
  StorageCrates, max_file_bytes, max_files, max_total_bytes, stored_files, stored_files_from,
  validate_stored_files, validate_stored_from, is_behind, stored_file, storage_schema,
  validate_pointer, stored_file_eq, pointer_eq,
}
use synapsegit_lp_studio.Storage.Project.{manifest_of, pointer_to}
use synapsegit_lp_studio.Storage.Project.Recoverable.{Switch}
use synapsegit_lp_studio.Storage.Project.Written.{Increasing, IsBTreeMap}
use synapsegit_lp_studio.ChangeSet.Types.{Crates, Files}
use synapsegit_lp_studio.ChangeSet.Path.{sha256}
use synapsegit_lp_studio.Storage.Files.Round.{stored_files_from-length, stored_round}
use synapsegit_lp_studio.Storage.Manifest.{
  check_manifest, decode_manifest, or_corrupt, read_manifest_from_root, max_manifest_bytes,
}
use synapsegit_lp_studio.Prelude.{
  ==_refl, List, Option, [], ap, false, length, list_eq, ltb, nat_eq, none, ok, ok_injective,
  pair_eq, passes_of_reject, refl, reject_if, seq-eq-ok, some, subst, sym, true, ℕ, ◌+◌, ◌>>=◌, ◌∙◌,
  ◌∷◌, ◌≡◌, ◌≢◌,
}
use synapsegit_lp_studio.Prelude.Text.{Bytes, Text, codes}
use synapsegit_lp_studio.Prelude.Map.{BTreeMap}
use synapsegit_lp_studio.Prelude.Set.{HashSet}
use synapsegit_lp_studio.Prelude.Map
use synapsegit_lp_studio.Prelude.Set

-- The digests of `sha2` are written as 64 digits.
abbrev pub DigestsAreValid : Crates → Type 0
DigestsAreValid crates = (bytes : Bytes) → validate_digits 64 (sha256 crates bytes) ≡ ok tt

-- A commit of files that the store can take, over a revision with another identifier.
pub record Commit (crates : Crates) (others : StorageCrates) : Type 0 where
  pub old : CurrentPointer
  pub old_manifest : RevisionManifest
  pub old_files : Files
  pub revision_id : Text
  pub artifact_manifest_sha256 : Text
  pub files : Files
  pub stored : List StoredFile
  pub storable : stored_files crates others files ≡ ok stored
  pub is_map : IsBTreeMap files
  pub differ : old.revision_id ≢ revision_id
  pub decodes :
      others.from_slice
        (others.canonical_json (manifest_of revision_id artifact_manifest_sha256 stored))
      ≡ some (manifest_of revision_id artifact_manifest_sha256 stored)
  pub readable :
      ltb max_manifest_bytes
        (length (others.canonical_json (manifest_of revision_id artifact_manifest_sha256 stored)))
      ≡ false

abbrev pub switch_of : {crates : Crates} {others : StorageCrates} → Commit crates others → Switch
switch_of {crates} {others} c = record {
  old = c.old;
  new = pointer_to crates others (manifest_of c.revision_id c.artifact_manifest_sha256 c.stored);
  old_manifest = c.old_manifest;
  new_manifest = manifest_of c.revision_id c.artifact_manifest_sha256 c.stored;
  old_files = c.old_files;
  new_files = c.files;
  differ = c.differ;
  new_schema = refl;
}

valid_step :
    (crates : Crates) (others : StorageCrates) (path : Text) (bytes : Bytes)
    (more : List StoredFile) (previous : Option Text) (folded : HashSet Text) (total : ℕ)
    → validate_canonical_path crates path ≡ ok tt
    → validate_digits 64 (sha256 crates bytes) ≡ ok tt
    → ltb max_file_bytes (length bytes) ≡ false
    → is_behind previous path ≡ true
    → Set.contains (crates.folded path) folded ≡ false
    → ltb max_total_bytes (total + length bytes) ≡ false
    → validate_stored_from crates others more
        (some path)
        (Set.insert (crates.folded path) folded)
        (total + length bytes)
      ≡ ok tt
    → validate_stored_from crates others
        (stored_file crates others path bytes ∷ more)
        previous
        folded
        total
      ≡ ok tt
unfolding validate_stored_from
valid_step crates others path bytes more previous folded total canonical digest small behind new
      within rest =
    rw (rest, canonical, digest, ==_refl (others.media_type path), small, behind, within, new) refl

stored_from-valid :
    (crates : Crates) (others : StorageCrates) (files : Files) (previous : Option Text)
    (folded : HashSet Text) (total : ℕ) (entries : List StoredFile)
    → DigestsAreValid crates
    → Increasing previous files
    → stored_files_from crates others files folded total ≡ ok entries
    → validate_stored_from crates others entries previous folded total ≡ ok tt
unfolding stored_files_from validate_stored_from
stored_from-valid crates others [] previous folded total entries digests increasing h =
    ap (λ es. validate_stored_from crates others es previous folded total) (sym (ok_injective h))
stored_from-valid crates others ((path, bytes) ∷ files) previous folded total entries digests
      (behind, increasing) h =
    let seen = Set.insert (crates.folded path) folded in
    let r = stored_round crates others path bytes files folded total entries h in
    let rest =
      stored_from-valid crates others files (some path) seen (total + length bytes) r.more digests
        increasing r.are_more in
    subst (λ es. validate_stored_from crates others es previous folded total ≡ ok tt) r.joined
      (valid_step crates others path bytes r.more previous folded total r.canonical (digests bytes)
        r.is_small behind r.is_new r.fits rest)

stored-valid :
    (crates : Crates) (others : StorageCrates) (files : Files) (entries : List StoredFile)
    → DigestsAreValid crates
    → Increasing none files
    → stored_files crates others files ≡ ok entries
    → validate_stored_files crates others entries ≡ ok tt
unfolding stored_files validate_stored_files
stored-valid crates others files entries digests increasing h =
    let (few, listed) = seq-eq-ok (reject_if (ltb max_files (length files)) import_limit) _ h in
    let valid = stored_from-valid crates others files none [] 0 entries digests increasing listed in
    let same_length = stored_files_from-length crates others files [] 0 entries listed in
    rw (same_length, passes_of_reject _ _ few) valid

-- The manifest of the new revision reads well once it is written.
pub manifest-reads :
    (crates : Crates) (others : StorageCrates) (c : Commit crates others)
    (revisions : BTreeMap Bytes)
    → DigestsAreValid crates
    → validate_digits 64 c.artifact_manifest_sha256 ≡ ok tt
    → Map.get c.revision_id revisions ≡ some (others.canonical_json (switch_of c).new_manifest)
    → read_manifest_from_root crates others (switch_of c).new revisions
      ≡ ok (switch_of c).new_manifest
unfolding read_manifest_from_root decode_manifest check_manifest
manifest-reads crates others c revisions digests artifact there =
    let valid =
      stored-valid crates others c.files c.stored digests c.is_map.increasing c.storable in
    let json = others.canonical_json (switch_of c).new_manifest in
    ap (λ o. or_corrupt o >>= λ bytes. decode_manifest crates others (switch_of c).new bytes) there
    ∙ rw
        (
          c.readable,
          ==_refl (sha256 crates json),
          c.decodes,
          ==_refl storage_schema,
          ==_refl c.revision_id,
          ==_refl c.artifact_manifest_sha256,
          artifact,
          ==_refl json,
          valid,
        )
        refl

pub pointer-valid :
    (crates : Crates) (others : StorageCrates) (c : Commit crates others)
    → DigestsAreValid crates
    → validate_identifier c.revision_id (codes "rev_") ≡ ok tt
    → validate_digits 64 c.artifact_manifest_sha256 ≡ ok tt
    → validate_pointer (switch_of c).new ≡ ok tt
unfolding validate_pointer
pointer-valid crates others c digests id artifact =
    let json = others.canonical_json (switch_of c).new_manifest in
    rw (==_refl storage_schema, id, digests json) artifact
