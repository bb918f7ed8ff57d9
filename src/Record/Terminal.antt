-- ===== src/Record/Terminal.antt =====
-- The closures of internal/state/store.go on records with a terminal status.
use github_runners_infra.Prelude.{true, false, ◌≡◌, ◌⊎◌, inl, inr, refl, arith}
use github_runners_infra.Record.{
  Record, deleted, orphaned, completed, no_work, work_delete, work_is, is_terminal,
}
use github_runners_infra.Record.Claims.{
  on_release_claim, on_defer_rate_limited_work, on_defer_provisioning_demand,
  on_defer_deletion_confirmation, on_defer_reassignment_demand,
}
use github_runners_infra.Record.Provisioning.{
  on_clear_jit, on_mark_provisioned, on_mark_provision_failed, on_requeue_missing_runner,
}
use github_runners_infra.Record.Reconciling.{
  on_clear_provider_missing, on_clear_github_missing, on_record_runner_seen,
  on_clear_runner_missing, on_defer_reconciliation, on_defer_rate_limited_cleanup,
  on_defer_orphan_cleanup, on_release_absent_orphan,
}
use github_runners_infra.Record.Deleting.{
  on_mark_completed, on_schedule_deletion, on_mark_deleted, on_finish_deleted_runner,
  on_mark_delete_failed, on_mark_orphaned,
}
use github_runners_infra.Record.Transition.{
  Mutation, release_claim, defer_rate_limited_work, mark_deleted,
}

-- From `deleted` only to `deleted`; from `orphaned` only to `orphaned`, `deleted`, or, where the runner is
-- owned and the record is not claimed for a deletion, `completed`; and neither is claimed again.
abbrev pub KeepsTerminal : Record → Record → Type 0
KeepsTerminal r r' =
    (r.status ≡ deleted → r'.status ≡ deleted)
    × (r.status ≡ orphaned
        → (r'.status ≡ orphaned)
          ⊎ (r'.status ≡ deleted)
          ⊎ ((r'.status ≡ completed)
              × (r.github_runner_owned ≡ true)
              × (work_is work_delete r.claimed_work ≡ false)))
    × (is_terminal r.status ≡ true
        → (r'.claimed_work ≡ r.claimed_work) ⊎ (r'.claimed_work ≡ no_work))

pub Mutation-KeepsTerminal : {r r' : Record} → Mutation r r' → KeepsTerminal r r'
unfolding on_release_claim on_defer_rate_limited_work on_defer_provisioning_demand
    on_defer_deletion_confirmation on_defer_reassignment_demand on_clear_jit on_mark_provisioned
    on_mark_provision_failed on_requeue_missing_runner on_clear_provider_missing
    on_clear_github_missing on_record_runner_seen on_clear_runner_missing on_defer_reconciliation
    on_defer_rate_limited_cleanup on_defer_orphan_cleanup on_release_absent_orphan on_mark_completed
    on_schedule_deletion on_mark_deleted on_finish_deleted_runner on_mark_delete_failed
    on_mark_orphaned
Mutation-KeepsTerminal {r} (release_claim k) =
    (ground arith, λ h. inl (ground arith), λ h. ground arith)
Mutation-KeepsTerminal {r} (defer_rate_limited_work k m t n) =
    (ground arith, λ h. inl (ground arith), λ h. ground arith)
Mutation-KeepsTerminal {r} mark_deleted = (ground arith, λ h. inr (inl refl), λ h. ground arith)
Mutation-KeepsTerminal {r} _ = (ground arith, λ h. inl (ground arith), λ h. ground arith)
