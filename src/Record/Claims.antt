-- ===== src/Record/Claims.antt =====
-- internal/state/store.go: the mutations that end or refund a worker's claim. Each function is the
-- closure that the method of that name hands to `update`.
use github_runners_infra.Prelude.{
  ℕ, ◌+◌, ◌-◌, true, ◌&&◌, ◌||◌, not, Text, is_empty, text_eq, ltb, leb, if◌then◌else◌,
}
use github_runners_infra.Record.{
  Record, WorkKind, no_work, work_provision, work_delete, pending, provisioning, completed,
  deleting, orphaned, status_is, work_is, is_terminal,
}

-- `releaseProvisionClaim`; `-` stops at 0 as the source's test does.
unfoldable pub release_provision_claim : Record → Record
release_provision_claim r =
    let r1 = record r { attempts = if ltb 0 r.attempts then r.attempts - 1 else r.attempts } in
    if status_is provisioning r1.status then record r1 { status = pending } else r1

-- `releaseDeleteClaim`
unfoldable pub release_delete_claim : Record → Record
release_delete_claim r =
    let r1 = record r {
      delete_attempts =
          if ltb 0 r.delete_attempts then r.delete_attempts - 1 else r.delete_attempts;
    } in
    if status_is deleting r1.status then record r1 { status = completed } else r1

-- The `switch kind` of the two methods below.
unfoldable pub release_claim_of : WorkKind → Record → Record
unfolding release_provision_claim release_delete_claim
release_claim_of work_provision r = release_provision_claim r
release_claim_of work_delete r = release_delete_claim r
release_claim_of no_work r = r

unfoldable pub on_release_claim : WorkKind → Record → Record
unfolding release_claim_of
on_release_claim kind r =
    if is_terminal r.status || not (work_is r.claimed_work kind)
    then r
    else if not (work_is kind work_provision) && not (work_is kind work_delete)
    then r
    else release_claim_of kind (record r { claimed_work = no_work; next_attempt_at = 0 })

unfoldable pub on_defer_rate_limited_work : WorkKind → Text → ℕ → ℕ → Record → Record
unfolding release_claim_of
on_defer_rate_limited_work kind message retry_at max_attempts r =
    if is_terminal r.status || not (work_is r.claimed_work kind)
    then r
    else let r1 = release_claim_of kind (record r { claimed_work = no_work }) in
      if work_is kind work_provision && status_is completed r1.status
      then record r1 { next_attempt_at = 0 }
      else let r2 = record r1 {
        throttle_failures = r1.throttle_failures + 1;
        last_error = message;
      } in
        if leb max_attempts r2.throttle_failures
        then record r2 { status = orphaned; next_attempt_at = 0 }
        else record r2 { next_attempt_at = retry_at }

unfoldable pub on_defer_provisioning_demand : Text → ℕ → Record → Record
unfolding release_provision_claim
on_defer_provisioning_demand message retry_at r =
    if is_terminal r.status || not (work_is r.claimed_work work_provision)
    then r
    else let r1 = release_provision_claim (record r { claimed_work = no_work }) in
      let r2 =
        if status_is completed r1.status
        then r1
        else record r1 { next_attempt_at = retry_at; defer_deletion = true } in
      record r2 { last_error = message }

unfoldable pub on_defer_deletion_confirmation : Text → ℕ → Record → Record
unfolding release_delete_claim
on_defer_deletion_confirmation message retry_at r =
    if not (status_is deleting r.status)
      || not (work_is r.claimed_work work_delete)
      || is_empty r.deletion_accepted_id
      || not (text_eq r.deletion_accepted_id r.instance_id)
    then r
    else record (release_delete_claim r) {
      claimed_work = no_work;
      last_error = message;
      next_attempt_at = retry_at;
    }

unfoldable pub on_defer_reassignment_demand : Text → ℕ → Record → Record
unfolding release_delete_claim
on_defer_reassignment_demand message retry_at r =
    if not (work_is r.claimed_work work_delete)
    then r
    else record (release_delete_claim (record r { claimed_work = no_work })) {
      last_error = message;
      next_attempt_at = retry_at;
    }
