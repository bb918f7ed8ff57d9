-- ===== src/Record/Provisioning.antt =====
-- internal/state/store.go: the mutations of the provisioning side.
use github_runners_infra.Prelude.{
  ℕ, ◌+◌, true, false, not, Text, [], text_eq, leb, if◌then◌else◌, codes,
}
use github_runners_infra.Record.{
  Record, no_work, pending, provisioned, completed, deleted, failed, status_is, is_terminal,
  is_zero,
}

unfoldable pub on_clear_jit : Record → Record
on_clear_jit r =
    if status_is deleted r.status
    then r
    else record r { github_runner_id = 0; github_runner_owned = false }

-- `now` is the reading of the clock inside the closure.
unfoldable pub on_mark_provisioned : ℕ → Text → ℕ → Text → Record → Record
on_mark_provisioned now instance_id runner_id runner_name r =
    if is_terminal r.status then r else record r {
      instance_id = instance_id;
      deletion_accepted_id =
          if text_eq r.deletion_accepted_id instance_id then r.deletion_accepted_id else [];
      droplet_id = 0;
      github_runner_id = runner_id;
      github_runner_owned = true;
      runner_name = runner_name;
      last_error = [];
      throttle_failures = 0;
      provisioned_at = if is_zero r.provisioned_at then now else r.provisioned_at;
      claimed_work = no_work;
      missing_since = 0;
      missing_checks = 0;
      status = if status_is completed r.status then r.status else provisioned;
    }

unfoldable pub on_mark_provision_failed : Text → ℕ → ℕ → Record → Record
on_mark_provision_failed message retry_at max_attempts r =
    if is_terminal r.status
    then r
    else let r1 = record r {
      last_error = message;
      throttle_failures = 0;
      claimed_work = no_work;
    } in
      if status_is completed r1.status
      then r1
      else if leb max_attempts r1.attempts
      then record r1 { status = failed }
      else record r1 { status = pending; next_attempt_at = retry_at }

disappeared : Text
disappeared = codes "provider instance disappeared; provisioning replacement"

unfoldable pub on_requeue_missing_runner : ℕ → Record → Record
unfolding disappeared
on_requeue_missing_runner max_attempts r =
    if not (status_is provisioned r.status)
    then r
    else let r1 = record r {
      instance_id = [];
      deletion_accepted_id = [];
      provisioned_at = 0;
      registered_at = 0;
      reconciled_at = 0;
      provision_epoch = r.provision_epoch + 1;
      github_runner_id = 0;
      github_runner_owned = false;
      runner_name = [];
      missing_since = 0;
      missing_checks = 0;
      github_missing_since = 0;
      github_missing_checks = 0;
      last_error = disappeared;
    } in
      if leb max_attempts r1.attempts
      then record r1 { status = failed }
      else record r1 { status = pending; next_attempt_at = 0 }
