-- ===== src/Webhook/Deletion/Due.antt =====
-- internal/webhook/handler.go, `delete`: what must have happened before its calls.
use github_runners_infra.Prelude.{Bool, true, false, some, Text, ◌≡◌, ◌≢◌, ◌⊎◌, ◌∷◌}
use github_runners_infra.Record.{Record}
use github_runners_infra.Webhook.Failure.{good}
use github_runners_infra.Webhook.Calls.{
  Call, StoreCall, store, JobStatus, create_runner, delete_runner, generate_jit_config,
  runner_absent, cleanup_runner, cleanup_runner_except, remove_repo_runner, workflow_job_status,
}
use github_runners_infra.Webhook.Program.{History, event}
use github_runners_infra.Webhook.Handler.{Handler, owns_registration}
use github_runners_infra.Webhook.Deletion.{is_queued}

-- The provider was asked to delete the instance and did not refuse; if its absence can be confirmed
-- then this was recorded, now or by an earlier worker.
abbrev pub IsRequested : Handler → Record → History → History → Type 0
IsRequested h r start past =
    ((h.confirms_absence ≡ false)
      × (past ≡ event (delete_runner r.instance_id r.key) (good tt) ∷ start))
    ⊎ ((h.confirms_absence ≡ true)
        × (past
            ≡ event (store (StoreCall.mark_deletion_accepted r.key r.instance_id)) (good tt)
              ∷ event (delete_runner r.instance_id r.key) (good tt)
              ∷ start))
    ⊎ ((h.confirms_absence ≡ true) × (r.deletion_accepted_id ≡ r.instance_id) × (past ≡ start))

-- The absence of the instance was confirmed, if that can be.
abbrev pub IsGone : Handler → Record → History → History → Type 0
IsGone h r before past =
    ((h.confirms_absence ≡ false) × (past ≡ before))
    ⊎ ((h.confirms_absence ≡ true)
        × (past ≡ event (runner_absent r.instance_id) (good true) ∷ before))

-- Other instances of the job were removed.
abbrev pub IsCleaned : Record → History → History → Type 0
IsCleaned r before past =
    (past ≡ event (cleanup_runner r.key) (good tt) ∷ before)
    ⊎ (past ≡ event (cleanup_runner_except r.key r.instance_id) (good tt) ∷ before)

-- An owned registration was removed.
abbrev pub IsDeregistered : Record → History → History → Type 0
IsDeregistered r before past =
    ((owns_registration r ≡ false) × (past ≡ before))
    ⊎ ((owns_registration r ≡ true)
        × (past
            ≡ event (remove_repo_runner r.owner r.repository r.github_runner_id) (good tt)
              ∷ before))

-- The answer about the original demand is that of GitHub, asked after the record showed it open, or
-- it is negative because a completion is known or no other job was assigned.
abbrev pub IsRechecked : Record → History → History → Bool → Type 0
IsRechecked r before past queued =
    ((queued ≡ false) × (past ≡ before))
    ⊎ ((current : Record) × (queued ≡ false)
        × (current.job_completed ≡ true)
        × (past ≡ event (store (StoreCall.get_record r.key)) (good (some current)) ∷ before))
    ⊎ ((current : Record) × (status : JobStatus) × (queued ≡ is_queued status)
        × (r.recheck_demand ≡ true)
        × (r.job_completed ≡ false)
        × (current.job_completed ≡ false)
        × (past
            ≡ event (workflow_job_status r.owner r.repository r.job_id) (good status)
              ∷ event (store (StoreCall.get_record r.key)) (good (some current))
              ∷ before))

-- All that precedes the end of a record, after `start`.
abbrev pub IsFinishable : Handler → Record → History → History → Text → Bool → Type 0
IsFinishable h r start past key queued =
    (requested : History) × (gone : History) × (cleaned : History) × (deregistered : History) × (key
      ≡ r.key)
    × IsRequested h r start requested
    × IsGone h r requested gone
    × IsCleaned r gone cleaned
    × IsDeregistered r cleaned deregistered
    × IsRechecked r deregistered past queued

-- The instance of the record is deleted once, and not if its deletion was accepted before.
abbrev pub IsFirstRequest : Handler → Record → History → History → Text → Text → Type 0
IsFirstRequest h r start past instance_id key =
    (instance_id ≡ r.instance_id)
    × (key ≡ r.key)
    × (past ≡ start)
    × ((h.confirms_absence ≡ false) ⊎ (r.deletion_accepted_id ≢ r.instance_id))

-- When `delete` may make its calls.
abbrev pub IsDue : Handler → Record → History → History → Call → Type 0
IsDue h r start past (store (StoreCall.finish_deleted_runner key queued)) =
    IsFinishable h r start past key queued
IsDue h r start past (delete_runner instance_id key) = IsFirstRequest h r start past instance_id key
IsDue h r start past (create_runner _) = ⊥
IsDue h r start past (generate_jit_config _ _ _ _ _) = ⊥
IsDue h r start past _ = Unit {0}
