-- ===== src/Webhook/Liveness.antt =====
-- internal/webhook/handler.go, `reconcileProvisionedRunner` and what it calls: a provisioned record is
-- compared with the provider and with GitHub. The result is whether a replacement was queued.
pub mod Causes
pub mod Missing
pub mod Registered
pub mod Replacement
use github_runners_infra.Prelude.{
  ℕ, ◌+◌, Bool, true, false, not, Option, none, some, Text, ◌++◌, codes, itoa, ltb, leb, ◌==◌,
  if◌then◌else◌,
}
use github_runners_infra.Record.{Record, is_zero, after}
use github_runners_infra.Webhook.Failure.{Failure, Outcome, good, bad, wrap}
use github_runners_infra.Webhook.Calls.{
  StoreCall, store, job_completed, RunnerStatus, runner_missing, runner_offline, runner_online,
  find_runner, cleanup_runner, delete_runner, remove_repo_runner, repo_runner_status,
  workflow_job_status, time_now,
}
use github_runners_infra.Program.{done, ask, ◌>>=◌}
use github_runners_infra.Webhook.Program.{Prog, call, store_call}
use github_runners_infra.Webhook.Handler.{Handler, owns_registration}
use github_runners_infra.Webhook.Retreat.{defer_reconciliation, remove_idle_jit}

-- !t.IsZero() && t.After(time.Now())
unfoldable pub is_ahead : ℕ → Prog Bool
is_ahead t = if is_zero t then done false else (do now ← call time_now; done (after t now))

abbrev stored_or : (Failure → Failure) → Bool → Outcome (Unit {0}) → Outcome Bool
stored_or describe result (good _) = good result
stored_or describe result (bad e) = bad (describe e)

module _ (h : Handler) (r : Record) where
  -- `deferReconciliation` in the place of a result.
  unfoldable pub deferred : Failure → Prog (Outcome Bool)
  deferred e = do cause ← defer_reconciliation h r e; done (bad cause)

  -- RequeueMissingRunner
  unfoldable pub requeue : Text → Prog (Outcome Bool)
  requeue prefix = do
    stored ← store_call (StoreCall.requeue_missing_runner r.key h.limits.max_attempts)
    done (stored_or (wrap (prefix ++ r.key)) true stored)

  -- An owned registration is removed before a step.
  unfoldable pub after_removal : Text → Prog (Outcome Bool) → Prog (Outcome Bool)
  unfolding deferred
  after_removal prefix next =
      if owns_registration r
      then ask (remove_repo_runner r.owner r.repository r.github_runner_id)
          (elim [ bad e ↦ deferred (wrap (prefix ++ itoa r.github_runner_id) e) | good _ ↦ next ])
      else next

  -- `requeueUnregisteredRunner`
  unfoldable pub requeue_unregistered_runner : Prog (Outcome Bool)
  unfolding after_removal requeue
  requeue_unregistered_runner = after_removal (codes "remove unregistered JIT runner ") (
      ask (delete_runner r.instance_id r.key) (elim [
        | bad e ↦ done (bad (wrap (codes "delete unregistered runner " ++ r.instance_id) e))
        | good _ ↦ requeue (codes "requeue unregistered runner ")
      ]))

  -- `reconcileDuplicateRunners`
  unfoldable pub reconcile_duplicate_runners : Prog (Outcome Bool)
  unfolding after_removal requeue
  reconcile_duplicate_runners = ask (cleanup_runner r.key) (elim [
    | bad e ↦ done (bad (wrap (codes "clean up duplicate runners for " ++ r.key) e))
    | good _ ↦
        after_removal (codes "remove duplicate-instance JIT runner ")
          (requeue (codes "requeue duplicate runners for "))
  ])

  observation_error : Failure → Failure
  observation_error = wrap (codes "record missing runner " ++ r.key)

  -- The observation of `reconcileProviderMissingRunner`, once the other one is cleared.
  unfoldable pub observe_missing : Prog (Outcome Bool)
  unfolding after_removal requeue observation_error
  observe_missing = do
    now ← call time_now
    ask
        (store (
          StoreCall.observe_runner_missing r.key now h.limits.liveness_settle_window
            h.limits.liveness_confirmations))
        (elim [
          | bad e ↦ done (bad (observation_error e))
          | good false ↦ done (good false)
          | good true ↦
              after_removal (codes "remove missing instance JIT runner ")
                (requeue (codes "requeue missing runner "))
        ])

  -- `reconcileProviderMissingRunner`
  unfoldable pub reconcile_provider_missing_runner : Prog (Outcome Bool)
  unfolding observe_missing
  reconcile_provider_missing_runner =
      if r.github_missing_checks == 0
      then observe_missing
      else ask (store (StoreCall.clear_github_missing r.key)) (elim [
        | bad e ↦ done (bad (wrap (codes "clear GitHub-missing observations for " ++ r.key) e))
        | good _ ↦ observe_missing
      ])

  unfoldable pub schedule_missing : Prog (Outcome Bool)
  schedule_missing = do
    stored ← store_call (StoreCall.schedule_deletion r.key)
    done (stored_or (wrap (codes "schedule confirmed-missing GitHub runner " ++ r.key)) true stored)

  -- The instance may still be starting: time.Since(record.ProvisionedAt) < h.registrationTimeout,
  -- before a first registration.
  unfoldable pub within_startup : Prog Bool
  within_startup =
      if is_zero r.registered_at
      then (do
        now ← call time_now
        done (ltb now (r.provisioned_at + h.limits.registration_timeout)))
      else done false

  -- `reconcileGitHubMissingRunner`
  unfoldable pub reconcile_github_missing_runner : Prog (Outcome Bool)
  unfolding schedule_missing within_startup observation_error
  reconcile_github_missing_runner = do
    now ← call time_now
    ask
        (store (
          StoreCall.observe_github_runner_missing r.key now h.limits.liveness_settle_window
            h.limits.liveness_confirmations))
        (elim [
          | bad e ↦ done (bad (observation_error e))
          | good false ↦ done (good false)
          | good true ↦ within_startup >>= λ starting.
              if starting then done (good false) else schedule_missing
        ])

  -- RecordRunnerSeen, for a runner that is online for the first time.
  unfoldable pub record_seen : Prog (Outcome Bool)
  record_seen = do
    stored ← store_call (StoreCall.record_runner_seen r.key)
    done (stored_or (wrap (codes "record runner seen for " ++ r.key)) false stored)

  -- The end of `reconcileProviderFoundRunner`, by the status that GitHub gave.
  unfoldable pub seen_as : RunnerStatus → Prog (Outcome Bool)
  unfolding requeue_unregistered_runner record_seen
  seen_as runner_missing = done (good false)
  seen_as runner_offline = if not (is_zero r.registered_at) then done (good false) else (do
    now ← call time_now
    if leb (r.provisioned_at + h.limits.registration_timeout) now
        then requeue_unregistered_runner
        else done (good false))
  seen_as runner_online = if is_zero r.registered_at then record_seen else done (good false)

  unfoldable pub registered_as : RunnerStatus → Prog (Outcome Bool)
  unfolding reconcile_github_missing_runner seen_as
  registered_as runner_missing = reconcile_github_missing_runner
  registered_as status = ask (store (StoreCall.clear_runner_missing r.key)) (elim [
    | bad e ↦ done (bad (wrap (codes "clear successful reconciliation for " ++ r.key) e))
    | good _ ↦ seen_as status
  ])

  unfoldable pub check_registration : Prog (Outcome Bool)
  unfolding registered_as deferred
  check_registration = ask (repo_runner_status r.owner r.repository r.github_runner_id) (elim [
    | bad e ↦ deferred (wrap (codes "check GitHub registration for " ++ r.key) e)
    | good status ↦ registered_as status
  ])

  -- The job is still open.
  unfoldable pub job_open : Prog (Outcome Bool)
  unfolding check_registration
  job_open =
      if r.missing_checks == 0
      then check_registration
      else ask (store (StoreCall.clear_provider_missing r.key)) (elim [
        | bad e ↦ done (bad (wrap (codes "clear provider-missing observations for " ++ r.key) e))
        | good _ ↦ check_registration
      ])

  unfoldable pub schedule_or : Option Failure → Prog (Outcome Bool)
  unfolding deferred
  schedule_or (some e) = deferred e
  schedule_or none = do
    stored ← store_call (StoreCall.schedule_deletion r.key)
    done (stored_or (λ e. e) false stored)

  -- The job is done, perhaps on another runner.
  unfoldable pub job_done : Prog (Outcome Bool)
  unfolding schedule_or
  job_done = remove_idle_jit r >>= schedule_or

  -- `reconcileProviderFoundRunner`
  unfoldable pub reconcile_provider_found_runner : Prog (Outcome Bool)
  unfolding job_done job_open
  reconcile_provider_found_runner =
      if r.job_completed
      then job_done
      else ask (workflow_job_status r.owner r.repository r.job_id) (elim [
        | bad e ↦ deferred (wrap (codes "check original workflow job") e)
        | good job_completed ↦ job_done
        | good _ ↦ job_open
      ])

  unfoldable pub find_failed : Failure → Prog (Outcome Bool)
  unfolding reconcile_duplicate_runners
  find_failed e =
      if e.duplicate_instances
      then reconcile_duplicate_runners
      else deferred (wrap (codes "check runner liveness for " ++ r.key) e)

  -- The comparison itself.
  unfoldable pub reconcile_now : Prog (Outcome Bool)
  unfolding find_failed reconcile_provider_found_runner reconcile_provider_missing_runner
  reconcile_now = ask (find_runner r.key) (elim [
    | bad e ↦ find_failed e
    | good (some _) ↦ reconcile_provider_found_runner
    | good none ↦ reconcile_provider_missing_runner
  ])

  -- time.Since(record.ReconciledAt) < h.livenessCheckInterval, after a first registration.
  unfoldable pub reconciled_lately : Prog Bool
  reconciled_lately =
      if is_zero r.registered_at
      then done false
      else (do now ← call time_now; done (ltb now (r.reconciled_at + h.liveness_check_interval)))

  -- `reconcileProvisionedRunner`
  unfoldable pub reconcile_provisioned_runner : Prog (Outcome Bool)
  unfolding is_ahead reconcile_now reconciled_lately
  reconcile_provisioned_runner = do
    ahead ← is_ahead r.next_attempt_at
    if ahead
        then done (good false)
        else (do lately ← reconciled_lately; if lately then done (good false) else reconcile_now)
