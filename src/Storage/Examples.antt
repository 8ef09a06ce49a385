-- ===== src/Storage/Examples.antt =====
-- apps/local-server/src/storage.rs: the theorems at the runs of the tests.
use synapsegit_lp_studio.Storage.Disk.{Disk, done, ran}
use synapsegit_lp_studio.Storage.Project.{commit_revision_at}
use synapsegit_lp_studio.Storage.Project.Recoverable.{Settled}
use synapsegit_lp_studio.Storage.Project.Committed.{switch_of}
use synapsegit_lp_studio.Storage.Project.Crash.{
  IsOldOrNew, Verifies, attempts, commit_revision_at-switches, disk_of, recover_project-restores,
}
use synapsegit_lp_studio.Storage.Tests.{
  commits, crash_fates, digests_valid, disk_after, disk_before, recovery_fates, starts,
  store_crates, store_others, the_commit, artifact_valid, files_agree, files_apart, id_is_free,
  new_id_valid,
}
use synapsegit_lp_studio.Storage.Project.Recovery.{recover_project}
use synapsegit_lp_studio.Storage.Project.Completes.{commit_revision_at-ends}
use synapsegit_lp_studio.Prelude.{[], inl, ◌≡◌}

commit_revision_at-switches_example :
    Verifies store_crates store_others (switch_of the_commit).new disk_after
    × Settled store_crates store_others
        (switch_of the_commit)
        (switch_of the_commit).new
        (switch_of the_commit).new_manifest
        disk_after
commit_revision_at-switches_example =
    commit_revision_at-switches store_crates store_others the_commit [] [] disk_before disk_after
      digests_valid starts commits

recover_project-restores_example :
    (e : Disk) × (recover_project store_crates store_others [] (
        attempts store_crates store_others recovery_fates (
          disk_of (
            commit_revision_at store_crates store_others the_commit.revision_id
              the_commit.artifact_manifest_sha256 the_commit.files crash_fates disk_before)))
      ≡ ran (done tt) [] e)
    × IsOldOrNew the_commit e
recover_project-restores_example =
    recover_project-restores store_crates store_others the_commit crash_fates recovery_fates
      disk_before digests_valid starts

commit_revision_at-ends_example :
    (e : Disk) × (commit_revision_at store_crates store_others the_commit.revision_id
        the_commit.artifact_manifest_sha256 the_commit.files [] disk_before
      ≡ ran (done tt) [] e)
    × Verifies store_crates store_others (switch_of the_commit).new e
    × Settled store_crates store_others
        (switch_of the_commit)
        (switch_of the_commit).new
        (switch_of the_commit).new_manifest
        e
commit_revision_at-ends_example =
    commit_revision_at-ends store_crates store_others the_commit disk_before digests_valid starts
      files_apart files_agree new_id_valid artifact_valid (inl id_is_free)
