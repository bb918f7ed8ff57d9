-- ===== src/Store/Methods.antt =====
-- internal/state/store.go: the methods that hand a closure to `update`. `os` holds the answers of
-- the operating system to the save, `now` the reading of the clock in `update`.
use github_runners_infra.Prelude.{
  ℕ, Bool, Option, none, some, Text, text_eq, ◌==◌, ◌||◌, if◌then◌else◌,
}
use github_runners_infra.Dict.{put}
use github_runners_infra.Record.{Record, WorkKind, is_terminal}
use github_runners_infra.Record.Claims.{
  on_release_claim, on_defer_rate_limited_work, on_defer_provisioning_demand,
  on_defer_deletion_confirmation, on_defer_reassignment_demand,
}
use github_runners_infra.Record.Provisioning.{
  on_clear_jit, on_mark_provisioned, on_mark_provision_failed, on_requeue_missing_runner,
}
use github_runners_infra.Record.Reconciling.{
  on_clear_provider_missing, on_clear_github_missing, on_record_runner_seen,
  on_clear_runner_missing, on_defer_reconciliation, on_defer_rate_limited_cleanup,
  on_defer_orphan_cleanup, on_release_absent_orphan,
}
use github_runners_infra.Record.Deleting.{
  on_mark_completed, on_schedule_deletion, on_mark_deleted, on_finish_deleted_runner,
  on_mark_delete_failed, on_mark_orphaned,
}
use github_runners_infra.Store.{Exec, FileStore, Os, Result, ok, ◌>>=◌}
use github_runners_infra.Store.Update.{update, update_with}
use github_runners_infra.Store.Identity.{runner_identity_key, completion_marker_key}

module _ (os : Os) (now : ℕ) (key : Text) where
  unfoldable pub release_claim : WorkKind → Exec (Unit {0})
  release_claim kind = update os now key (on_release_claim kind)

  unfoldable pub defer_rate_limited_work : WorkKind → Text → ℕ → ℕ → Exec (Unit {0})
  defer_rate_limited_work kind message retry_at max_attempts =
      update os now key (on_defer_rate_limited_work kind message retry_at max_attempts)

  unfoldable pub defer_provisioning_demand : Text → ℕ → Exec (Unit {0})
  defer_provisioning_demand message retry_at =
      update os now key (on_defer_provisioning_demand message retry_at)

  unfoldable pub clear_jit : Exec (Unit {0})
  clear_jit = update os now key on_clear_jit

  unfoldable pub clear_provider_missing : Exec (Unit {0})
  clear_provider_missing = update os now key on_clear_provider_missing

  unfoldable pub clear_github_missing : Exec (Unit {0})
  clear_github_missing = update os now key on_clear_github_missing

  unfoldable pub record_runner_seen : ℕ → ℕ → Exec (Unit {0})
  record_runner_seen registered seen = update os now key (on_record_runner_seen registered seen)

  unfoldable pub clear_runner_missing : ℕ → Exec (Unit {0})
  clear_runner_missing seen = update os now key (on_clear_runner_missing seen)

  unfoldable pub defer_reconciliation : Text → ℕ → ℕ → Bool → Bool → Exec (Unit {0})
  defer_reconciliation message retry_at max_attempts count_failure count_throttle =
      update os now key
        (on_defer_reconciliation message retry_at max_attempts count_failure count_throttle)

  unfoldable pub defer_rate_limited_cleanup : Text → ℕ → ℕ → Bool → Exec (Unit {0})
  defer_rate_limited_cleanup message retry_at max_attempts count_throttle =
      update os now key (on_defer_rate_limited_cleanup message retry_at max_attempts count_throttle)

  unfoldable pub defer_orphan_cleanup : Text → ℕ → Exec (Unit {0})
  defer_orphan_cleanup message retry_at =
      update os now key (on_defer_orphan_cleanup message retry_at)

  unfoldable pub mark_provision_failed : Text → ℕ → ℕ → Exec (Unit {0})
  mark_provision_failed message retry_at max_attempts =
      update os now key (on_mark_provision_failed message retry_at max_attempts)

  unfoldable pub mark_completed : Exec (Unit {0})
  mark_completed = update os now key on_mark_completed

  unfoldable pub schedule_deletion : Exec (Unit {0})
  schedule_deletion = update os now key on_schedule_deletion

  unfoldable pub defer_deletion_confirmation : Text → ℕ → Exec (Unit {0})
  defer_deletion_confirmation message retry_at =
      update os now key (on_defer_deletion_confirmation message retry_at)

  unfoldable pub mark_deleted : Exec (Unit {0})
  mark_deleted = update os now key on_mark_deleted

  unfoldable pub finish_deleted_runner : Bool → Exec Bool
  finish_deleted_runner queued = update_with os now key (on_finish_deleted_runner queued)

  unfoldable pub defer_reassignment_demand : Text → ℕ → Exec (Unit {0})
  defer_reassignment_demand message retry_at =
      update os now key (on_defer_reassignment_demand message retry_at)

  unfoldable pub mark_delete_failed : Text → ℕ → ℕ → Exec (Unit {0})
  mark_delete_failed message retry_at max_attempts =
      update os now key (on_mark_delete_failed message retry_at max_attempts)

  unfoldable pub mark_orphaned : Text → Exec (Unit {0})
  mark_orphaned message = update os now key (on_mark_orphaned message)

  unfoldable pub release_absent_orphan : Text → Exec (Unit {0})
  release_absent_orphan instance_id = update os now key (on_release_absent_orphan instance_id)

  unfoldable pub requeue_missing_runner : ℕ → Exec (Unit {0})
  requeue_missing_runner max_attempts = update os now key (on_requeue_missing_runner max_attempts)

-- The closure of `MarkProvisioned` with the record that it hands out in `indexed`.
unfoldable pub provisioned_and_indexed : ℕ → Text → ℕ → Text → Record → Record × Option Record
unfolding on_mark_provisioned
provisioned_and_indexed at instance_id runner_id runner_name r =
    let r' = on_mark_provisioned at instance_id runner_id runner_name r in
    if is_terminal r.status || runner_id == 0 then (r', none) else (r', some r')

-- The second half of `MarkProvisioned`: the runner's identity enters the index.
unfoldable pub index_runner : Text → Option Record → Exec (Unit {0})
index_runner key none s = (ok tt, s)
index_runner key (some r) s =
    let runner = runner_identity_key r.owner r.repository r.github_runner_id in
    if text_eq key (completion_marker_key r.owner r.repository r.github_runner_id)
    then (ok tt, s)
    else (ok tt, record s { runner_keys = put runner key s.runner_keys })

unfoldable pub mark_provisioned :
    Os → ℕ → ℕ → Text → Text → ℕ → Text → FileStore → Result (Unit {0}) × FileStore
unfolding provisioned_and_indexed index_runner
mark_provisioned os at now key instance_id runner_id runner_name = do
  indexed ← update_with os now key (provisioned_and_indexed at instance_id runner_id runner_name)
  index_runner key indexed
