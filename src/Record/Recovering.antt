-- ===== src/Record/Recovering.antt =====
-- internal/state/store.go, `recoverRecord` and `recoverInterruptedWork`: what opening the state
-- file does to each record that it finds.
pub mod Idle
use github_runners_infra.Prelude.{
  ℕ, ◌-◌, Bool, true, false, ◌&&◌, ◌||◌, not, Text, [], is_empty, text_eq, ltb, if◌then◌else◌,
  codes, ◌==◌, itoa,
}
use github_runners_infra.Record.{
  Record, Status, no_work, pending, provisioning, provisioned, completed, deleting, deleted,
  status_is, work_is, is_zero, older_than,
}

-- `context.Canceled.Error()` and `context.DeadlineExceeded.Error()`
canceled_message : Text
canceled_message = codes "context canceled"

deadline_exceeded_message : Text
deadline_exceeded_message = codes "context deadline exceeded"

unfoldable pub was_canceled : Text → Bool
unfolding canceled_message deadline_exceeded_message
was_canceled message = text_eq message canceled_message || text_eq message deadline_exceeded_message

-- The `switch` on the status.
recover_interrupted_at : Status → Record → Record × Bool
recover_interrupted_at provisioning r = (
  record r { status = pending; attempts = if ltb 0 r.attempts then r.attempts - 1 else r.attempts },
  true,
)
recover_interrupted_at deleting r = (
  record r {
    status = completed;
    delete_attempts = if ltb 0 r.delete_attempts then r.delete_attempts - 1 else r.delete_attempts;
  },
  true,
)
recover_interrupted_at completed r =
    if ltb 0 r.delete_attempts && was_canceled r.last_error
    then (record r { delete_attempts = r.delete_attempts - 1; last_error = [] }, true)
    else (r, false)
recover_interrupted_at _ r = (r, false)

unfoldable pub recover_interrupted_work : Record → Record × Bool
unfolding recover_interrupted_at
recover_interrupted_work r = recover_interrupted_at r.status r

digitalocean : Text
digitalocean = codes "digitalocean"

-- The repairs in the order of the source; the Boolean is `changed`.
clear_claim : Record × Bool → Record × Bool
clear_claim (r, changed) =
    if work_is no_work r.claimed_work
    then (r, changed)
    else (record r { claimed_work = no_work }, true)

bind_provider : Record × Bool → Record × Bool
unfolding digitalocean
bind_provider (r, changed) =
    if is_empty r.provider then (record r { provider = digitalocean }, true) else (r, changed)

date_provisioning : Record × Bool → Record × Bool
date_provisioning (r, changed) =
    if status_is provisioned r.status && is_zero r.provisioned_at
    then (
      record r { provisioned_at = if is_zero r.updated_at then r.created_at else r.updated_at },
      true,
    )
    else (r, changed)

resume_interrupted : Record × Bool → Record × Bool
unfolding recover_interrupted_work
resume_interrupted (r, changed) =
    let (r', resumed) = recover_interrupted_work r in (r', resumed || changed)

migrate_droplet : Record × Bool → Record × Bool
migrate_droplet (r, changed) =
    if is_empty r.instance_id && not (r.droplet_id == 0)
    then (record r { instance_id = itoa r.droplet_id; droplet_id = 0 }, true)
    else (r, changed)

stamp : ℕ → Record × Bool → Record × Bool
stamp now (r, changed) =
    (if changed then record r { next_attempt_at = 0; updated_at = now } else r, changed)

-- The repairs together.
unfoldable pub repair : ℕ → Record → Record × Bool
unfolding clear_claim bind_provider date_provisioning resume_interrupted migrate_droplet stamp
repair now r = stamp now (
    migrate_droplet
      (resume_interrupted (date_provisioning (bind_provider (clear_claim (r, false))))))

-- The record, whether it is kept and whether it changed.
unfoldable pub recover_record : ℕ → ℕ → Record → Record × Bool × Bool
unfolding repair
recover_record now retention r =
    if status_is deleted r.status && older_than r.updated_at now retention
    then (r, false, true)
    else let (r', changed) = repair now r in (r', true, changed)
