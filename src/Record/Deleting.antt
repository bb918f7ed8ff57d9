-- ===== src/Record/Deleting.antt =====
-- internal/state/store.go: the mutations of the deletion side.
use github_runners_infra.Prelude.{
  ℕ, ◌+◌, Bool, true, false, ◌&&◌, ◌||◌, not, Text, [], leb, if◌then◌else◌,
}
use github_runners_infra.Record.{
  Record, no_work, pending, completed, deleted, orphaned, status_is, work_is, is_terminal,
}

unfoldable pub on_mark_completed : Record → Record
on_mark_completed r =
    if not (status_is deleted r.status) && not (status_is orphaned r.status)
    then record r { status = completed; next_attempt_at = 0 }
    else r

unfoldable pub on_schedule_deletion : Record → Record
on_schedule_deletion r =
    if is_terminal r.status || not (work_is r.claimed_work no_work)
    then r
    else record r { status = completed; defer_deletion = false; next_attempt_at = 0 }

unfoldable pub on_mark_deleted : Record → Record
on_mark_deleted r = record r {
  status = deleted;
  claimed_work = no_work;
  defer_deletion = false;
  last_error = [];
  next_attempt_at = 0;
}

-- The original demand is still queued, and no completion of it has been recorded.
unfoldable pub restores_demand : Bool → Record → Bool
restores_demand queued r = queued && r.recheck_demand && not r.job_completed

-- The record after the closure, and whether it set `restored`.
unfoldable pub on_finish_deleted_runner : Bool → Record → Record × Bool
unfolding restores_demand
on_finish_deleted_runner queued r =
    if is_terminal r.status
    then (r, false)
    else let r1 = record r {
      status = deleted;
      claimed_work = no_work;
      defer_deletion = false;
      last_error = [];
      next_attempt_at = 0;
      recheck_demand = false;
    } in
      if not (restores_demand queued r) then (r1, false) else (
        record r1 {
          status = pending;
          instance_id = [];
          deletion_accepted_id = [];
          github_runner_id = 0;
          github_runner_owned = false;
          runner_name = [];
          provisioned_at = 0;
          registered_at = 0;
          reconciled_at = 0;
          missing_since = 0;
          github_missing_since = 0;
          missing_checks = 0;
          github_missing_checks = 0;
          attempts = 0;
          delete_attempts = 0;
          reconcile_failures = 0;
          throttle_failures = 0;
          provision_epoch = r1.provision_epoch + 1;
        },
        true,
      )

unfoldable pub on_mark_delete_failed : Text → ℕ → ℕ → Record → Record
on_mark_delete_failed message retry_at max_attempts r =
    if is_terminal r.status
    then r
    else let r1 = record r {
      last_error = message;
      throttle_failures = 0;
      claimed_work = no_work;
    } in
      if leb max_attempts r1.delete_attempts
      then record r1 { status = orphaned }
      else record r1 { status = completed; next_attempt_at = retry_at }

unfoldable pub on_mark_orphaned : Text → Record → Record
on_mark_orphaned message r = if status_is deleted r.status then r else record r {
  status = orphaned;
  claimed_work = no_work;
  last_error = message;
  next_attempt_at = 0;
}
