-- ===== src/Webhook/Retreat.antt =====
-- internal/webhook/handler.go: what workers and the reaper share when a step fails: `markOrphaned`,
-- `deferReconciliation`, `removeIdleJIT` and the times of the next attempt.
pub mod Steps
pub mod Quiet
use github_runners_infra.Prelude.{
  ℕ, ◌+◌, pos, Bool, true, false, ◌&&◌, not, Option, none, some, Text, ◌++◌, codes, itoa,
  if◌then◌else◌,
}
use github_runners_infra.Record.{Record}
use github_runners_infra.Webhook.Delays.{retry_delay, clamp_throttle_retry_at}
use github_runners_infra.Webhook.Failure.{Failure, Outcome, good, bad, wrap, join, join_maybe}
use github_runners_infra.Webhook.Calls.{StoreCall, time_now, remove_repo_runner, signal}
use github_runners_infra.Program.{done, ask, ◌>>=◌, ◌>>◌}
use github_runners_infra.Webhook.Program.{Prog, call, store_call}
use github_runners_infra.Webhook.Handler.{Handler, owns_registration}

-- clampThrottleRetryAt(retryAt), with its reading of the clock.
unfoldable pub throttle_retry_at : ℕ → Prog ℕ
throttle_retry_at retry_at = do now ← call time_now; done (clamp_throttle_retry_at now retry_at)

-- time.Now().Add(delay)
unfoldable pub in_time : ℕ → Prog ℕ
in_time delay = do now ← call time_now; done (now + delay)

-- time.Now().Add(retryDelay(attempt))
unfoldable pub retry_after : ℕ → Prog ℕ
unfolding in_time
retry_after attempt = in_time (retry_delay (pos attempt))

-- The reset time of a throttle, or else a time of the caller.
unfoldable pub retry_time : Option ℕ → Prog ℕ → Prog ℕ
unfolding throttle_retry_at
retry_time (some reset_at) otherwise = throttle_retry_at reset_at
retry_time none otherwise = otherwise

abbrev pub is_limited : Option ℕ → Bool
is_limited none = false
is_limited (some _) = true

-- The part of `markOrphaned` that deregisters an owned runner: its error.
unfoldable pub deregister_orphan : Record → Prog (Option Failure)
deregister_orphan r =
    if owns_registration r
    then ask (remove_repo_runner r.owner r.repository r.github_runner_id) (elim [
      | bad e ↦
          done
            (some (wrap (codes "deregister orphaned GitHub runner " ++ itoa r.github_runner_id) e))
      | good _ ↦ do
        cleared ← store_call (StoreCall.clear_jit r.key)
        elim cleared [
          | bad e ↦ done (some (wrap (codes "clear orphaned GitHub runner identity") e))
          | good _ ↦ done none
        ]
    ])
    else done none

-- The error of `markOrphaned`, from that of the deregistration and the answer of the store.
unfoldable pub orphan_error : Text → Failure → Option Failure → Outcome (Unit {0}) → Option Failure
orphan_error key cause cleanup (good _) = cleanup
orphan_error key cause cleanup (bad e) =
    some (join (join_maybe cause cleanup) (wrap (codes "persist orphaned runner " ++ key) e))

-- `markOrphaned`
unfoldable pub mark_orphaned : Record → Failure → Prog (Option Failure)
unfolding deregister_orphan
mark_orphaned r cause = do
  cleanup ← deregister_orphan r
  stored ← store_call (StoreCall.mark_orphaned r.key (join_maybe cause cleanup).message)
  done (orphan_error r.key cause cleanup stored)

-- `removeIdleJIT`: its error.
unfoldable pub remove_idle_jit : Record → Prog (Option Failure)
remove_idle_jit r =
    if owns_registration r
    then ask (remove_repo_runner r.owner r.repository r.github_runner_id) (elim [
      | bad e ↦ done (some (wrap (codes "deregister runner without original job demand") e))
      | good _ ↦ do
        cleared ← store_call (StoreCall.clear_jit r.key)
        elim cleared [
          | bad e ↦ done (some (wrap (codes "clear retired runner registration") e))
          | good _ ↦ done none
        ]
    ])
    else done none

-- `deferReconciliation`: its error, which is never nil.
unfoldable pub defer_reconciliation : Handler → Record → Failure → Prog Failure
unfolding retry_time retry_after in_time throttle_retry_at
defer_reconciliation h r cause = do
  retry_at ← retry_time cause.rate_limit (retry_after (r.reconcile_failures + 1))
  stored ← store_call (
      StoreCall.defer_reconciliation r.key cause.message retry_at h.limits.max_attempts
        (not (is_limited cause.rate_limit) && cause.persistent) (is_limited cause.rate_limit))
  elim stored [
    | good _ ↦ done cause
    | bad e ↦ done (join cause (wrap (codes "persist reconciliation backoff for " ++ r.key) e))
  ]
