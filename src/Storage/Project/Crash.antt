-- ===== src/Storage/Project/Crash.antt =====
-- apps/local-server/src/storage.rs: commits and recoveries that errors and crashes interrupt.
use synapsegit_lp_studio.Storage.Disk.{
  CurrentPointer, Disk, Fate, Ran, RevisionManifest, done, failed, ran, read, stopped,
}
use synapsegit_lp_studio.Storage.Files.{StorageCrates, stored_file_eq, pointer_eq}
use synapsegit_lp_studio.Storage.Project.{commit_revision_at}
use synapsegit_lp_studio.Storage.Disk.Triple.{Post}
use synapsegit_lp_studio.Storage.Project.Recoverable.{
  Recoverable, Retained, Settled, Switch, switched,
}
use synapsegit_lp_studio.Storage.Project.Restored.{recover_project-Triple, settled-Left, AllSettled}
use synapsegit_lp_studio.ChangeSet.Types.{Crates, Files}
use synapsegit_lp_studio.Storage.Project.Committed.{Commit, DigestsAreValid, switch_of}
use synapsegit_lp_studio.Storage.Project.Committing.{Start, commit_revision_at-Triple}
use synapsegit_lp_studio.Storage.Project.Recovery.{recover_project, verify_project}
use synapsegit_lp_studio.Prelude.{
  ==_refl, Bool, List, [], ap, inl, inr, list_eq, nat_eq, refl, subst, true, ◌∷◌, ◌≡◌, ◌⊎◌,
}

abbrev pub disk_of : {A : Type 0} → Ran A → Disk
disk_of (ran outcome fates d) = d

-- Recoveries one after the other, each against its own fates.
abbrev pub attempts : Crates → StorageCrates → List (List Fate) → Disk → Disk
attempts crates others [] d = d
attempts crates others (fates ∷ later) d =
    attempts crates others later (disk_of (recover_project crates others fates d))

-- `verify_project` accepts the project at this revision.
abbrev pub Verifies : Crates → StorageCrates → CurrentPointer → Disk → Type 0
Verifies crates others pointer d =
    verify_project crates others pointer.revision_id pointer.artifact_manifest_sha256 [] d
    ≡ ran (done tt) [] d

post-disk :
    {A : Type 0} {strict : Bool} {Q : A → Disk → Type 0} {E : Disk → Type 0} {fates : List Fate}
    (x : Ran A)
    → ((a : A) (d : Disk) → Q a d → E d)
    → Post strict Q E fates x
    → E (disk_of x)
post-disk (ran (done a) rest d) f h = f a d h.held.0
post-disk (ran (failed e) rest d) f h = h.held.0
post-disk (ran stopped rest d) f h = h.held.0

pub post-done :
    {A : Type 0} {strict : Bool} {Q : A → Disk → Type 0} {E : Disk → Type 0}
    {fates rest : List Fate} (x : Ran A) (a : A) (d : Disk)
    → x ≡ ran (done a) rest d
    → Post strict Q E fates x
    → Q a d
post-done {strict} {Q} {E} {fates} x a d e h =
    let moved_along = subst (Post strict Q E fates) e h in moved_along.held.0

-- A strict triple ends with a value when no effect is at fault.
pub post-ends :
    {Q : Unit → Disk → Type 0} {E : Disk → Type 0} (x : Ran (Unit {0}))
    → Post true Q E [] x
    → (d : Disk) × (x ≡ ran (done tt) [] d) × Q tt d
post-ends (ran (done tt) rest d) h = (d, ap (λ r. ran (done tt) r d) (h.held.1 refl), h.held.0)
post-ends (ran (failed e) rest d) h = absurd (h.held.1 refl refl)
post-ends (ran stopped rest d) h = absurd (h.held.1 refl refl)

attempts-Recoverable :
    (crates : Crates) (others : StorageCrates) (s : Switch) (later : List (List Fate)) (d : Disk)
    → Recoverable crates others s d
    → Recoverable crates others s (attempts crates others later d)
attempts-Recoverable crates others s [] d p = p
attempts-Recoverable crates others s (fates ∷ later) d p =
    attempts-Recoverable crates others s later _ (
      post-disk (recover_project crates others fates d) (λ u. settled-Left crates others s true)
        ((recover_project-Triple crates others s true).runs fates d p))

pub Settled-Verifies :
    (crates : Crates) (others : StorageCrates) (s : Switch) (pointer : CurrentPointer)
    (manifest : RevisionManifest) (files : Files) (d : Disk)
    → Retained crates others pointer manifest files d.objects d.revisions
    → Settled crates others s pointer manifest d
    → Verifies crates others pointer d
unfolding verify_project read
Settled-Verifies crates others s pointer manifest files d kept settled =
    rw
      (
        settled.is_current,
        kept.valid,
        ==_refl pointer.revision_id,
        ==_refl pointer.artifact_manifest_sha256,
        kept.reads,
        settled.site_shows,
        ==_refl manifest.files,
      )
      refl

-- The project verifies at the old revision, or at the new one, whose site is in place.
abbrev pub IsOldOrNew :
    {crates : Crates} {others : StorageCrates} → Commit crates others → Disk → Type 0
IsOldOrNew {crates} {others} c d =
    (Verifies crates others (switch_of c).old d
      × Settled crates others (switch_of c) (switch_of c).old (switch_of c).old_manifest d)
    ⊎ (Verifies crates others (switch_of c).new d
        × Settled crates others (switch_of c) (switch_of c).new (switch_of c).new_manifest d)

settled-IsOldOrNew :
    (crates : Crates) (others : StorageCrates) (c : Commit crates others) (strict : Bool) (d : Disk)
    → AllSettled crates others (switch_of c) strict d
    → IsOldOrNew c d
settled-IsOldOrNew crates others c strict d (inl (kept, settled)) = inl (
  Settled-Verifies crates others (switch_of c) (switch_of c).old (switch_of c).old_manifest
      (switch_of c).old_files d kept settled,
  settled,
)
settled-IsOldOrNew crates others c strict d (inr (kept, settled)) = inr (
  Settled-Verifies crates others (switch_of c) (switch_of c).new (switch_of c).new_manifest
      (switch_of c).new_files d kept settled,
  settled,
)

-- A commit to a settled project that returns without an error has switched it: the new revision is
-- current and verifies, with its site in place, and no backup and no transaction is left.
pub commit_revision_at-switches :
    (crates : Crates) (others : StorageCrates) (c : Commit crates others) (fates rest : List Fate)
    (d e : Disk)
    → DigestsAreValid crates
    → Start crates others (switch_of c) d
    → commit_revision_at crates others c.revision_id c.artifact_manifest_sha256 c.files fates d
      ≡ ran (done tt) rest e
    → Verifies crates others (switch_of c).new e
      × Settled crates others (switch_of c) (switch_of c).new (switch_of c).new_manifest e
commit_revision_at-switches crates others c fates rest d e digests start returned =
    let (kept, settled) =
      post-done
        (commit_revision_at crates others c.revision_id c.artifact_manifest_sha256 c.files fates d)
        tt e returned ((commit_revision_at-Triple crates others c digests).runs fates d start) in
    (
      Settled-Verifies crates others (switch_of c) (switch_of c).new (switch_of c).new_manifest
          (switch_of c).new_files e kept settled,
      settled,
    )

-- Whatever effect of a commit fails or is cut off by a crash, and however often recoveries are then
-- interrupted too, the next recovery that nothing disturbs returns, and leaves the project verified
-- at the old revision or at the new one, with that revision's site in place, and with no backup and
-- no transaction.
pub recover_project-restores :
    (crates : Crates) (others : StorageCrates) (c : Commit crates others) (fates : List Fate)
    (later : List (List Fate)) (d : Disk)
    → DigestsAreValid crates
    → Start crates others (switch_of c) d
    → (e : Disk) × (recover_project crates others [] (
          attempts crates others later (
            disk_of (
              commit_revision_at crates others c.revision_id c.artifact_manifest_sha256 c.files
                fates d)))
        ≡ ran (done tt) [] e)
      × IsOldOrNew c e
recover_project-restores crates others c fates later d digests start =
    let s = switch_of c in
    let left =
      post-disk
        (commit_revision_at crates others c.revision_id c.artifact_manifest_sha256 c.files fates d)
        (λ u e q. switched q.0 q.1)
        ((commit_revision_at-Triple crates others c digests).runs fates d start) in
    let last = attempts-Recoverable crates others s later _ left in
    let (e, ends, settled) =
      post-ends (recover_project crates others [] _)
        ((recover_project-Triple crates others s true).runs [] _ last) in
    (e, ends, settled-IsOldOrNew crates others c true e settled)
