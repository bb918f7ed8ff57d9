-- ===== src/Webhook/Demand.antt =====
-- internal/webhook/handler.go: what a worker does when a provision cannot go on: `provisionFailed`,
-- `deferDemandCheck`, `retireProvisioning`, and the check `requireQueuedJob` that leads to them.
pub mod Failing
pub mod Steps
use github_runners_infra.Prelude.{
  ℕ, Bool, true, false, Option, none, some, Text, is_empty, codes, leb, if◌then◌else◌,
}
use github_runners_infra.Record.{Record, work_provision}
use github_runners_infra.Webhook.Limits.{minute}
use github_runners_infra.Webhook.Failure.{Failure, Outcome, good, bad, wrap, new_error, failed}
use github_runners_infra.Webhook.Calls.{
  StoreCall, store, remove_repo_runner, cleanup_runner, workflow_job_status, context_ended, signal,
  job_queued,
}
use github_runners_infra.Program.{done, ask, ◌>>=◌, ◌>>◌}
use github_runners_infra.Webhook.Program.{Prog, call, store_call}
use github_runners_infra.Webhook.Handler.{Handler, owns_registration}
use github_runners_infra.Webhook.Retreat.{
  throttle_retry_at, in_time, retry_after, retry_time, mark_orphaned, remove_idle_jit,
}

module _ (h : Handler) (r : Record) where
  -- The end of `provisionFailed`.
  unfoldable pub fail_provision : Failure → Prog (Unit {0})
  fail_provision e = do
    retry_at ← retry_after r.attempts
    store_call (StoreCall.mark_provision_failed r.key e.message retry_at h.limits.max_attempts)
    call signal

  -- Deregisters the runner of a provision that is given up; errors are logged.
  unfoldable pub deregister_exhausted : Prog (Unit {0})
  deregister_exhausted =
      if owns_registration r
      then ask (remove_repo_runner r.owner r.repository r.github_runner_id)
          (elim [ bad _ ↦ done tt | good _ ↦ do store_call (StoreCall.clear_jit r.key); done tt ])
      else done tt

  -- The branch of `provisionFailed` for a spent budget.
  unfoldable pub exhaust_provision : Failure → Prog (Unit {0})
  unfolding fail_provision deregister_exhausted
  exhaust_provision e = ask (cleanup_runner r.key) (elim [
    | good _ ↦ do deregister_exhausted; fail_provision e
    | bad cleanup ↦
        if cleanup.ownership_mismatch
        then (do mark_orphaned r cleanup; done tt)
        else (do deregister_exhausted; fail_provision e)
  ])

  unfoldable pub provision_failed_at : Option ℕ → Failure → Prog (Unit {0})
  unfolding exhaust_provision
  provision_failed_at (some reset_at) e = do
    retry_at ← throttle_retry_at reset_at
    store_call (
        StoreCall.defer_rate_limited_work r.key work_provision e.message retry_at
          h.limits.max_attempts)
    done tt
  provision_failed_at none e =
      if e.outcome_unknown
      then (do mark_orphaned r e; done tt)
      else if leb h.limits.max_attempts r.attempts
      then exhaust_provision e
      else fail_provision e

  -- `provisionFailed`
  unfoldable pub provision_failed : Failure → Prog (Unit {0})
  unfolding provision_failed_at
  provision_failed e =
      if e.canceled
      then (do store_call (StoreCall.release_claim r.key work_provision); done tt)
      else provision_failed_at e.rate_limit e

  -- `deferDemandCheck`
  unfoldable pub defer_demand_check : Failure → Prog (Unit {0})
  defer_demand_check cause = do
    ended ← call context_ended
    if ended then provision_failed cause else (do
      in_a_minute ← in_time minute
      retry_at ← retry_time cause.rate_limit (done in_a_minute)
      store_call (StoreCall.defer_provisioning_demand r.key cause.message retry_at)
      call signal)

-- The steps of `retireProvisioning` for a record with an instance.
unfoldable pub retire_instance : Text → Prog (Option Failure)
retire_instance key = ask (store (StoreCall.mark_completed key)) (elim [
  | bad e ↦ done (some (wrap (codes "mark obsolete provision completed") e))
  | good _ ↦ ask (store (StoreCall.release_claim key work_provision)) (elim [
    | bad e ↦ done (some (wrap (codes "release obsolete provision claim") e))
    | good _ ↦ do out ← store_call (StoreCall.schedule_deletion key); done (failed out)
  ])
])

-- `retireProvisioning`: its error.
unfoldable pub retire_provisioning : Text → Prog (Option Failure)
unfolding retire_instance
retire_provisioning key = ask (store (StoreCall.get_record key)) (elim [
  | bad e ↦ done (some (wrap (codes "read obsolete provision") e))
  | good none ↦ done (some (new_error (codes "obsolete provision record not found")))
  | good (some r) ↦
      if is_empty r.instance_id
      then (do out ← store_call (StoreCall.mark_deleted key); done (failed out))
      else retire_instance key
])

module _ (h : Handler) (r : Record) where
  -- What follows `retireProvisioning`, whose error becomes that of the provision.
  unfoldable pub after_retirement :
      (Failure → Failure) → Prog (Unit {0}) → Option Failure → Prog Bool
  after_retirement describe otherwise none = do otherwise; done false
  after_retirement describe otherwise (some e) = do provision_failed h r (describe e); done false

  -- The demand is gone: the registration is removed, then the provision is retired.
  unfoldable pub retire_demand : (Failure → Failure) → Prog (Unit {0}) → Option Failure → Prog Bool
  unfolding after_retirement
  retire_demand describe otherwise (some e) = do defer_demand_check h r e; done false
  retire_demand describe otherwise none =
      retire_provisioning r.key >>= after_retirement describe otherwise

  unfoldable pub without_demand : (Failure → Failure) → Prog (Unit {0}) → Prog Bool
  unfolding retire_demand
  without_demand describe otherwise = remove_idle_jit r >>= retire_demand describe otherwise

  -- The job's status at GitHub, once the record is known not to be completed.
  unfoldable pub require_queued_status : Prog Bool
  unfolding without_demand
  require_queued_status = ask (workflow_job_status r.owner r.repository r.job_id) (elim [
    | bad e ↦ do
      defer_demand_check h r (wrap (codes "verify current workflow job demand") e)
      done false
    | good job_queued ↦ done true
    | good _ ↦ without_demand (wrap (codes "retire job without queued demand")) (call signal)
  ])

  unfoldable pub require_demand : Record → Prog Bool
  unfolding require_queued_status
  require_demand current =
      if current.job_completed then without_demand (λ e. e) (done tt) else require_queued_status

  -- `requireQueuedJob`
  unfoldable pub require_queued_job : Prog Bool
  unfolding require_demand
  require_queued_job = ask (store (StoreCall.get_record r.key)) (elim [
    | bad e ↦ do defer_demand_check h r (wrap (codes "read current job demand") e); done false
    | good none ↦ do
      defer_demand_check h r (
          wrap (codes "read current job demand")
            (new_error (codes "job demand record is unavailable")))
      done false
    | good (some current) ↦ require_demand current
  ])
