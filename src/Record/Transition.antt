-- ===== src/Record/Transition.antt =====
-- internal/state/store.go: the closures that its methods hand to `update`, as a relation. The writes of
-- the methods that do not run through `update` are in Store/Lifecycle.
use github_runners_infra.Prelude.{ℕ, Bool, Text}
use github_runners_infra.Record.{Record, WorkKind}
use github_runners_infra.Record.Claims.{
  on_release_claim, on_defer_rate_limited_work, on_defer_provisioning_demand,
  on_defer_deletion_confirmation, on_defer_reassignment_demand,
}
use github_runners_infra.Record.Provisioning.{
  on_clear_jit, on_mark_provisioned, on_mark_provision_failed, on_requeue_missing_runner,
}
use github_runners_infra.Record.Reconciling.{
  on_clear_provider_missing, on_clear_github_missing, on_record_runner_seen,
  on_clear_runner_missing, on_defer_reconciliation, on_defer_rate_limited_cleanup,
  on_defer_orphan_cleanup, on_release_absent_orphan,
}
use github_runners_infra.Record.Deleting.{
  on_mark_completed, on_schedule_deletion, on_mark_deleted, on_finish_deleted_runner,
  on_mark_delete_failed, on_mark_orphaned,
}

-- The closures that `update` runs.
pub data Mutation (r : Record) : Record → Type 0 where
  release_claim : (kind : WorkKind) → Mutation r (on_release_claim kind r)
  defer_rate_limited_work :
      (kind : WorkKind) (message : Text) (retry_at max_attempts : ℕ)
      → Mutation r (on_defer_rate_limited_work kind message retry_at max_attempts r)
  defer_provisioning_demand :
      (message : Text) (retry_at : ℕ) → Mutation r (on_defer_provisioning_demand message retry_at r)
  defer_deletion_confirmation :
      (message : Text) (retry_at : ℕ)
      → Mutation r (on_defer_deletion_confirmation message retry_at r)
  defer_reassignment_demand :
      (message : Text) (retry_at : ℕ) → Mutation r (on_defer_reassignment_demand message retry_at r)
  clear_jit : Mutation r (on_clear_jit r)
  mark_provisioned :
      (now : ℕ) (instance_id : Text) (runner_id : ℕ) (runner_name : Text)
      → Mutation r (on_mark_provisioned now instance_id runner_id runner_name r)
  mark_provision_failed :
      (message : Text) (retry_at max_attempts : ℕ)
      → Mutation r (on_mark_provision_failed message retry_at max_attempts r)
  requeue_missing_runner :
      (max_attempts : ℕ) → Mutation r (on_requeue_missing_runner max_attempts r)
  clear_provider_missing : Mutation r (on_clear_provider_missing r)
  clear_github_missing : Mutation r (on_clear_github_missing r)
  record_runner_seen : (registered now : ℕ) → Mutation r (on_record_runner_seen registered now r)
  clear_runner_missing : (now : ℕ) → Mutation r (on_clear_runner_missing now r)
  defer_reconciliation :
      (message : Text) (retry_at max_attempts : ℕ) (count_failure count_throttle : Bool)
      → Mutation r
          (on_defer_reconciliation message retry_at max_attempts count_failure count_throttle r)
  defer_rate_limited_cleanup :
      (message : Text) (retry_at max_attempts : ℕ) (count_throttle : Bool)
      → Mutation r (on_defer_rate_limited_cleanup message retry_at max_attempts count_throttle r)
  defer_orphan_cleanup :
      (message : Text) (retry_at : ℕ) → Mutation r (on_defer_orphan_cleanup message retry_at r)
  release_absent_orphan : (instance_id : Text) → Mutation r (on_release_absent_orphan instance_id r)
  mark_completed : Mutation r (on_mark_completed r)
  schedule_deletion : Mutation r (on_schedule_deletion r)
  mark_deleted : Mutation r (on_mark_deleted r)
  finish_deleted_runner : (queued : Bool) → Mutation r (on_finish_deleted_runner queued r).0
  mark_delete_failed :
      (message : Text) (retry_at max_attempts : ℕ)
      → Mutation r (on_mark_delete_failed message retry_at max_attempts r)
  mark_orphaned : (message : Text) → Mutation r (on_mark_orphaned message r)
