-- ===== src/Record/Reconciling.antt =====
-- internal/state/store.go: the mutations of the reaper, which compares records with the provider
-- and with GitHub.
use github_runners_infra.Prelude.{
  ℕ, ◌+◌, ◌-◌, Bool, ◌&&◌, ◌||◌, not, Text, [], is_empty, text_eq, ltb, leb, if◌then◌else◌,
}
use github_runners_infra.Record.{
  Record, no_work, provisioned, orphaned, status_is, is_terminal, is_zero,
}

unfoldable pub on_clear_provider_missing : Record → Record
on_clear_provider_missing r = record r { missing_since = 0; missing_checks = 0 }

unfoldable pub on_clear_github_missing : Record → Record
on_clear_github_missing r = record r { github_missing_since = 0; github_missing_checks = 0 }

-- The closure reads the clock twice.
unfoldable pub on_record_runner_seen : ℕ → ℕ → Record → Record
on_record_runner_seen registered now r =
    if status_is provisioned r.status
    then record r {
      registered_at = if is_zero r.registered_at then registered else r.registered_at;
      reconciled_at = now;
      missing_since = 0;
      missing_checks = 0;
      github_missing_since = 0;
      github_missing_checks = 0;
    }
    else r

unfoldable pub on_clear_runner_missing : ℕ → Record → Record
on_clear_runner_missing now r =
    if status_is provisioned r.status
    then record r {
      reconciled_at = now;
      missing_since = 0;
      missing_checks = 0;
      github_missing_since = 0;
      github_missing_checks = 0;
      delete_attempts = 0;
      reconcile_failures = 0;
      throttle_failures = 0;
      last_error = [];
      next_attempt_at = 0;
    }
    else r

-- The terminal branch of a spent budget.
abbrev orphan_with : Text → Record → Record
orphan_with message r = record r { status = orphaned; last_error = message; next_attempt_at = 0 }

-- The part after the test of the failure budget.
defer_after_failures : Text → ℕ → ℕ → Bool → Record → Record
defer_after_failures message retry_at max_attempts count_throttle r =
    let r1 = record r {
      throttle_failures = if count_throttle then r.throttle_failures + 1 else 0;
    } in
    if count_throttle && leb max_attempts r1.throttle_failures
    then orphan_with message r1
    else record r1 { last_error = message; next_attempt_at = retry_at }

unfoldable pub on_defer_reconciliation : Text → ℕ → ℕ → Bool → Bool → Record → Record
unfolding defer_after_failures
on_defer_reconciliation message retry_at max_attempts count_failure count_throttle r =
    if is_terminal r.status
    then r
    else let r1 = record r {
      reconcile_failures = if count_failure then r.reconcile_failures + 1 else r.reconcile_failures;
    } in
      if count_failure && leb max_attempts r1.reconcile_failures
      then orphan_with message r1
      else defer_after_failures message retry_at max_attempts count_throttle r1

unfoldable pub on_defer_rate_limited_cleanup : Text → ℕ → ℕ → Bool → Record → Record
on_defer_rate_limited_cleanup message retry_at max_attempts count_throttle r =
    if is_terminal r.status
    then r
    else let r1 = record r {
      delete_attempts =
          if ltb 0 r.delete_attempts then r.delete_attempts - 1 else r.delete_attempts;
      last_error = message;
      throttle_failures = if count_throttle then r.throttle_failures + 1 else 0;
    } in
      if count_throttle && leb max_attempts r1.throttle_failures
      then record r1 { status = orphaned; next_attempt_at = 0 }
      else record r1 { next_attempt_at = retry_at }

unfoldable pub on_defer_orphan_cleanup : Text → ℕ → Record → Record
on_defer_orphan_cleanup message retry_at r =
    if not (status_is orphaned r.status) then r else record r {
      reconcile_failures = r.reconcile_failures + 1;
      last_error = message;
      next_attempt_at = retry_at;
    }

unfoldable pub on_release_absent_orphan : Text → Record → Record
on_release_absent_orphan instance_id r =
    if is_empty instance_id
      || not (status_is orphaned r.status)
      || not (text_eq r.instance_id instance_id)
    then r
    else record r { instance_id = []; claimed_work = no_work }
