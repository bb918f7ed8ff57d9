-- ===== src/Webhook/Expiry.antt =====
-- internal/webhook/handler.go, `expireRunner` and what it calls. The results are errors.
pub mod Causes
pub mod Steps
use github_runners_infra.Prelude.{
  ℕ, true, false, ◌||◌, not, ◌==◌, Option, none, some, Text, ◌++◌, codes, itoa, is_empty, text_eq,
  if◌then◌else◌,
}
use github_runners_infra.Record.{Record}
use github_runners_infra.Webhook.Limits.{minute}
use github_runners_infra.Webhook.Failure.{Failure, good, bad, wrap, join, new_error, failed}
use github_runners_infra.Webhook.Calls.{
  StoreCall, store, cleanup_runner, remove_repo_runner, context_ended,
}
use github_runners_infra.Program.{done, ask, ◌>>=◌}
use github_runners_infra.Webhook.Program.{Prog, call, store_call}
use github_runners_infra.Webhook.Handler.{Handler, owns_registration}
use github_runners_infra.Webhook.Retreat.{
  throttle_retry_at, in_time, retry_after, mark_orphaned, defer_reconciliation,
}
use github_runners_infra.Webhook.Worker.{quoted}

-- The error of a step, joined with that of storing it.
unfoldable pub persisted : Failure → Text → Option Failure → Failure
persisted e message none = e
persisted e message (some other) = join e (wrap message other)

module _ (h : Handler) (r : Record) where
  unfoldable pub cleanup_timed_out : Failure → Prog Failure
  cleanup_timed_out e = do
    retry_at ← in_time minute
    stored ←
        store_call (
          StoreCall.defer_rate_limited_cleanup r.key e.message retry_at h.limits.max_attempts false)
    done (persisted e (codes "persist controller-timeout cleanup backoff") (failed stored))

  unfoldable pub cleanup_charged : ℕ → Failure → Prog Failure
  cleanup_charged attempt e = do
    retry_at ← retry_after attempt
    stored ←
        store_call (StoreCall.mark_delete_failed r.key e.message retry_at h.limits.max_attempts)
    done (persisted e (codes "persist cleanup failure") (failed stored))

  unfoldable pub cleanup_failed_at : ℕ → Failure → Option ℕ → Prog Failure
  unfolding cleanup_timed_out cleanup_charged
  cleanup_failed_at attempt e (some reset_at) = do
    retry_at ← throttle_retry_at reset_at
    stored ←
        store_call
          (StoreCall.defer_rate_limited_cleanup r.key e.message retry_at h.limits.max_attempts true)
    done (persisted e (codes "persist rate-limited cleanup backoff") (failed stored))
  cleanup_failed_at attempt e none = if e.canceled then cleanup_timed_out e else (do
    ended ← call context_ended
    if ended then cleanup_timed_out e else cleanup_charged attempt e)

  -- `untrackedCleanupFailed`
  unfoldable pub untracked_cleanup_failed : ℕ → Failure → Prog Failure
  unfolding cleanup_failed_at
  untracked_cleanup_failed attempt e =
      if e.ownership_mismatch
      then (do
        stored ← mark_orphaned r e
        done (persisted e (codes "persist orphaned cleanup state") stored))
      else cleanup_failed_at attempt e e.rate_limit

  unfoldable pub as_error : Prog Failure → Prog (Option Failure)
  as_error m = m >>= λ e. done (some e)

  unfoldable pub clean_untracked : ℕ → Prog (Option Failure)
  unfolding untracked_cleanup_failed as_error
  clean_untracked attempt = ask (cleanup_runner r.key) (elim [
    | bad e ↦ as_error (
        untracked_cleanup_failed attempt
          (wrap (codes "clean up untracked provider resources for " ++ r.key) e))
    | good _ ↦ do stored ← store_call (StoreCall.mark_deleted r.key); done (failed stored)
  ])

  -- `deleteUntrackedExpiredRunner`
  unfoldable pub delete_untracked_expired_runner : Prog (Option Failure)
  unfolding clean_untracked
  delete_untracked_expired_runner =
      ask (store (StoreCall.begin_cleanup_attempt r.key h.limits.max_attempts)) (elim [
        | bad e ↦ done (some e)
        | good (attempt, false) ↦ done none
        | good (attempt, true) ↦
            if owns_registration r
            then ask (remove_repo_runner r.owner r.repository r.github_runner_id) (elim [
              | bad e ↦ as_error (
                  untracked_cleanup_failed attempt
                    (wrap (codes "remove expired JIT runner " ++ itoa r.github_runner_id) e))
              | good _ ↦ clean_untracked attempt
            ])
            else clean_untracked attempt
      ])

  -- `prepareDeferredDeletion`
  unfoldable pub prepare_deferred_deletion : Prog (Option Failure)
  prepare_deferred_deletion =
      if not r.defer_deletion || r.github_runner_id == 0 || not r.github_runner_owned
      then done none
      else ask (remove_repo_runner r.owner r.repository r.github_runner_id) (elim [
        | bad e ↦ done (
            some (
              wrap (codes "deregister deferred-cancellation runner " ++ itoa r.github_runner_id) e))
        | good _ ↦ ask (store (StoreCall.clear_jit r.key)) (elim [
          | bad e ↦ done (
              some
                (wrap (codes "clear deferred-cancellation runner " ++ itoa r.github_runner_id) e))
          | good _ ↦ done none
        ])
      ])

  wrong_provider : Failure
  wrong_provider = new_error (
      codes "cannot expire runner "
      ++ (r.key
          ++ (codes " owned by provider "
              ++ (quoted r.provider ++ (codes " with configured provider " ++ quoted h.provider)))))

  unfoldable pub expire_prepared : Option Failure → Prog (Option Failure)
  unfolding as_error
  expire_prepared (some e) = as_error (defer_reconciliation h r e)
  expire_prepared none = do
    stored ← store_call (StoreCall.schedule_deletion r.key)
    done (failed stored)

  -- `expireRunner`
  unfoldable pub expire_runner : Prog (Option Failure)
  unfolding delete_untracked_expired_runner prepare_deferred_deletion wrong_provider expire_prepared
  expire_runner =
      if not (text_eq r.provider h.provider)
      then (do
        stored ← mark_orphaned r wrong_provider
        done (some (persisted wrong_provider (codes "persist provider-mismatch orphan") stored)))
      else if is_empty r.instance_id
      then delete_untracked_expired_runner
      else prepare_deferred_deletion >>= expire_prepared
