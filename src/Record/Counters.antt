-- ===== src/Record/Counters.antt =====
-- internal/state/store.go: what the closures of `update` do to the counters of a record.
use github_runners_infra.Prelude.{arith, ◌≤◌, ◌+◌, ◌≡◌, ◌⊎◌}
use github_runners_infra.Record.{
  Record, pending, provisioning, provisioned, work_provision, no_work,
}
use github_runners_infra.Record.Claims.{
  on_release_claim, on_defer_rate_limited_work, on_defer_provisioning_demand,
  on_defer_deletion_confirmation, on_defer_reassignment_demand,
}
use github_runners_infra.Record.Provisioning.{
  on_clear_jit, on_mark_provisioned, on_mark_provision_failed, on_requeue_missing_runner,
}
use github_runners_infra.Record.Reconciling.{
  on_clear_provider_missing, on_clear_github_missing, on_record_runner_seen,
  on_clear_runner_missing, on_defer_reconciliation, on_defer_rate_limited_cleanup,
  on_defer_orphan_cleanup, on_release_absent_orphan,
}
use github_runners_infra.Record.Deleting.{
  on_mark_completed, on_schedule_deletion, on_mark_deleted, on_finish_deleted_runner,
  on_mark_delete_failed, on_mark_orphaned,
}
use github_runners_infra.Record.Transition.{Mutation, release_claim}

-- No counter grows by more than one: the attempts only where a pending record is provisioned, those of
-- the deletion only where no work is claimed, and the missed checks only of a provisioned record. The
-- epoch does not fall.
pub record IsCounted (r r' : Record) : Type 0 where
  pub attempts :
      (r'.attempts ≤ r.attempts)
      ⊎ ((r.status ≡ pending)
          × (r'.status ≡ provisioning)
          × (r'.claimed_work ≡ work_provision)
          × (r'.attempts ≡ r.attempts + 1))
  pub delete_attempts :
      (r'.delete_attempts ≤ r.delete_attempts)
      ⊎ ((r.claimed_work ≡ no_work) × (r'.delete_attempts ≡ r.delete_attempts + 1))
  pub provision_epoch :
      (r.provision_epoch ≤ r'.provision_epoch) × (r'.provision_epoch ≤ r.provision_epoch + 1)
  pub reconcile_failures : r'.reconcile_failures ≤ r.reconcile_failures + 1
  pub throttle_failures : r'.throttle_failures ≤ r.throttle_failures + 1
  pub missing_checks :
      (r'.missing_checks ≤ r.missing_checks)
      ⊎ ((r.status ≡ provisioned) × (r'.missing_checks ≤ r.missing_checks + 1))
  pub github_missing_checks :
      (r'.github_missing_checks ≤ r.github_missing_checks)
      ⊎ ((r.status ≡ provisioned) × (r'.github_missing_checks ≤ r.github_missing_checks + 1))

pub Mutation-IsCounted : {r r' : Record} → Mutation r r' → IsCounted r r'
unfolding on_release_claim on_defer_rate_limited_work on_defer_provisioning_demand
    on_defer_deletion_confirmation on_defer_reassignment_demand on_clear_jit on_mark_provisioned
    on_mark_provision_failed on_requeue_missing_runner on_clear_provider_missing
    on_clear_github_missing on_record_runner_seen on_clear_runner_missing on_defer_reconciliation
    on_defer_rate_limited_cleanup on_defer_orphan_cleanup on_release_absent_orphan on_mark_completed
    on_schedule_deletion on_mark_deleted on_finish_deleted_runner on_mark_delete_failed
    on_mark_orphaned
Mutation-IsCounted {r} (release_claim k) = ground arith
Mutation-IsCounted {r} _ = ground arith
