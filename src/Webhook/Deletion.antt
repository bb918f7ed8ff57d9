-- ===== src/Webhook/Deletion.antt =====
-- internal/webhook/handler.go, `delete`, `recheckCleanedRunnerDemand` and `releaseCanceledDelete`.
pub mod Due
pub mod Steps
pub mod Order
use github_runners_infra.Prelude.{
  ℕ, Bool, true, false, ◌&&◌, ◌||◌, not, Option, none, some, Text, ◌∷◌, ◌++◌, text_eq, codes,
  if◌then◌else◌,
}
use github_runners_infra.Record.{Record, work_delete}
use github_runners_infra.Webhook.Limits.{minute}
use github_runners_infra.Webhook.Failure.{Failure, Outcome, good, bad, wrap, new_error, failed}
use github_runners_infra.Webhook.Calls.{
  StoreCall, store, Call, JobStatus, job_queued, delete_runner, runner_absent, cleanup_runner,
  cleanup_runner_except, remove_repo_runner, workflow_job_status, context_ended, signal,
}
use github_runners_infra.Program.{done, ask, ◌>>=◌, ◌>>◌}
use github_runners_infra.Webhook.Program.{Prog, call, store_call}
use github_runners_infra.Webhook.Handler.{Handler, owns_registration}
use github_runners_infra.Webhook.Retreat.{
  throttle_retry_at, in_time, retry_after, retry_time, mark_orphaned,
}

abbrev pub is_queued : JobStatus → Bool
is_queued job_queued = true
is_queued _ = false

abbrev is_canceled : Option Failure → Bool
is_canceled none = false
is_canceled (some e) = e.canceled

abbrev awaiting_message : Option Failure → Text
awaiting_message none = codes "provider deletion accepted; awaiting confirmed absence"
awaiting_message (some e) = codes "confirm accepted provider deletion: " ++ e.message

module _ (r : Record) where
  unfoldable pub release_delete : Prog Bool
  release_delete = do store_call (StoreCall.release_claim r.key work_delete); done true

  -- `releaseCanceledDelete`; the context is asked only about another error.
  unfoldable pub release_canceled_delete : Option Failure → Prog Bool
  unfolding release_delete
  release_canceled_delete e =
      if is_canceled e
      then release_delete
      else (do ended ← call context_ended; if ended then release_delete else done false)

  -- `recheckCleanedRunnerDemand`
  unfoldable pub recheck_cleaned_runner_demand : Prog (Outcome Bool)
  recheck_cleaned_runner_demand =
      if not r.recheck_demand || r.job_completed
      then done (good false)
      else ask (store (StoreCall.get_record r.key)) (elim [
        | bad e ↦ done (bad (wrap (codes "read reassigned demand") e))
        | good none ↦ done (bad (new_error (codes "reassigned demand record is unavailable")))
        | good (some current) ↦
            if current.job_completed
            then done (good false)
            else ask (workflow_job_status r.owner r.repository r.job_id) (elim [
              | bad e ↦ done (bad (wrap (codes "confirm original job demand after reassignment") e))
              | good status ↦ done (good (is_queued status))
            ])
      ])

module _ (h : Handler) (r : Record) where
  -- MarkDeleteFailed after the delay for the deletion attempts, and a signal.
  unfoldable pub fail_deletion : Failure → Prog (Unit {0})
  fail_deletion e = do
    retry_at ← retry_after r.delete_attempts
    store_call (StoreCall.mark_delete_failed r.key e.message retry_at h.limits.max_attempts)
    call signal

  -- A failed step is charged to the budget, unless the context ended.
  unfoldable pub deletion_step_failed : Failure → Prog (Unit {0})
  unfolding fail_deletion
  deletion_step_failed e = do
    released ← release_canceled_delete r (some e)
    if released then done tt else fail_deletion e

  unfoldable pub request_failed : Failure → Prog (Unit {0})
  unfolding fail_deletion
  request_failed e = do
    released ← release_canceled_delete r (some e)
    if released
        then done tt
        else if e.ownership_mismatch
        then (do mark_orphaned r e; done tt)
        else fail_deletion e

  -- The provider no longer shows the instance as one of ours, and does not yet show it gone.
  unfoldable pub await_absence : Option Failure → Prog (Unit {0})
  await_absence e = do
    released ← release_canceled_delete r e
    if released then done tt else (do
      retry_at ← retry_after 1
      ask (store (StoreCall.defer_deletion_confirmation r.key (awaiting_message e) retry_at))
          (elim [
            | good _ ↦ done tt
            | bad _ ↦ do store_call (StoreCall.release_claim r.key work_delete); done tt
          ]))

  unfoldable pub throttled_or_failed : Failure → Option ℕ → Prog (Unit {0})
  throttled_or_failed e none = fail_deletion e
  throttled_or_failed e (some reset_at) = do
    retry_at ← throttle_retry_at reset_at
    store_call (
        StoreCall.defer_rate_limited_work r.key work_delete e.message retry_at
          h.limits.max_attempts)
    call signal

  unfoldable pub deregistration_failed : Failure → Prog (Unit {0})
  unfolding throttled_or_failed
  deregistration_failed e = do
    released ← release_canceled_delete r (some e)
    if released then done tt else throttled_or_failed e e.rate_limit

  unfoldable pub demand_unknown : Failure → Prog (Unit {0})
  demand_unknown e = do
    released ← release_canceled_delete r (some e)
    if released then done tt else (do
      in_a_minute ← in_time minute
      retry_at ← retry_time e.rate_limit (done in_a_minute)
      store_call (StoreCall.defer_reassignment_demand r.key e.message retry_at)
      done tt)

  unfoldable pub finish_failed : Failure → Prog (Unit {0})
  finish_failed e = do
    retry_at ← retry_after r.delete_attempts
    ask (store (StoreCall.mark_delete_failed r.key e.message retry_at h.limits.max_attempts))
        (elim [
          | good _ ↦ call signal
          | bad _ ↦ do store_call (StoreCall.release_claim r.key work_delete); call signal
        ])

  -- All resources are gone: the record is finished with what is known of the demand.
  unfoldable pub finish : Outcome Bool → Prog (Unit {0})
  unfolding demand_unknown finish_failed
  finish (bad e) = demand_unknown e
  finish (good queued) =
      ask (store (StoreCall.finish_deleted_runner r.key queued)) (elim [
        | bad e ↦ finish_failed e
        | good restored ↦ if restored then call signal else done tt
      ])

  unfoldable pub recheck_and_finish : Prog (Unit {0})
  unfolding finish
  recheck_and_finish = recheck_cleaned_runner_demand r >>= finish

  unfoldable pub deregister : Prog (Unit {0})
  unfolding recheck_and_finish deregistration_failed
  deregister =
      if owns_registration r
      then ask (remove_repo_runner r.owner r.repository r.github_runner_id)
          (elim [ bad e ↦ deregistration_failed e | good _ ↦ recheck_and_finish ])
      else recheck_and_finish

  -- The call that removes other instances of the job.
  abbrev pub cleanup_call : Bool → Call
  cleanup_call true = cleanup_runner_except r.key r.instance_id
  cleanup_call false = cleanup_runner r.key

  after_cleanup : Outcome (Unit {0}) → Prog (Unit {0})
  unfolding deregister deletion_step_failed
  after_cleanup (bad e) = deletion_step_failed e
  after_cleanup (good _) = deregister

  unfoldable pub clean_up : Prog (Unit {0})
  unfolding after_cleanup
  clean_up =
      if h.cleans_up_except && h.confirms_absence
      then ask (cleanup_runner_except r.key r.instance_id) after_cleanup
      else ask (cleanup_runner r.key) after_cleanup

  unfoldable pub confirm_absence : Prog (Unit {0})
  unfolding clean_up await_absence
  confirm_absence =
      if h.confirms_absence
      then ask (runner_absent r.instance_id) (elim [
        | bad e ↦ await_absence (some e)
        | good false ↦ await_absence none
        | good true ↦ clean_up
      ])
      else clean_up

  -- The provider accepted the deletion, which is recorded if its absence will be confirmed.
  after_request : Outcome (Unit {0}) → Prog (Option Failure)
  after_request (bad e) = done (some e)
  after_request (good _) =
      if h.confirms_absence
      then (do
        out ← store_call (StoreCall.mark_deletion_accepted r.key r.instance_id)
        done (failed out))
      else done none

  unfoldable pub request_deletion : Prog (Option Failure)
  unfolding after_request
  request_deletion =
      if not h.confirms_absence || not (text_eq r.deletion_accepted_id r.instance_id)
      then ask (delete_runner r.instance_id r.key) after_request
      else done none

  unfoldable pub delete_requested : Option Failure → Prog (Unit {0})
  unfolding request_failed confirm_absence
  delete_requested (some e) = request_failed e
  delete_requested none = confirm_absence

  -- `delete`
  unfoldable pub delete : Prog (Unit {0})
  unfolding request_deletion delete_requested
  delete = request_deletion >>= delete_requested
