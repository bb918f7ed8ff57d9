-- ===== src/Webhook/Liveness/Causes.antt =====
-- internal/webhook/handler.go, `reconcileProvisionedRunner`: what must have been seen before the
-- reaper gives a runner up.
use github_runners_infra.Prelude.{ℕ, ◌+◌, ◌≤◌, true, false, none, some, [], ◌∷◌, ◌≡◌, ◌≢◌, ◌⊎◌}
use github_runners_infra.Record.{Record, is_zero}
use github_runners_infra.Webhook.Failure.{Failure, good, bad}
use github_runners_infra.Webhook.Calls.{
  Call, StoreCall, store, JobStatus, job_completed, RunnerInstance, runner_offline, find_runner,
  cleanup_runner, create_runner, delete_runner, generate_jit_config, remove_repo_runner,
  repo_runner_status, workflow_job_status, time_now,
}
use github_runners_infra.Webhook.Program.{Event, History, event}
use github_runners_infra.Webhook.Handler.{Handler, owns_registration}

-- The event is in the history.
abbrev pub Saw : Event → History → Type 0
Saw e [] = ⊥
Saw e (e' ∷ past) = (e' ≡ e) ⊎ Saw e past

-- Nothing of the one history is missing in the other.
abbrev pub Keeps : History → History → Type 0
Keeps past later = (e : Event) → Saw e past → Saw e later

module _ (h : Handler) (r : Record) where
  -- An owned registration was removed at GitHub, which refuses that for a busy runner.
  abbrev pub IsRemoved : History → Type 0
  IsRemoved past =
      owns_registration r ≡ true
      → Saw (event (remove_repo_runner r.owner r.repository r.github_runner_id) (good tt)) past

  -- The provider showed an instance of the job.
  abbrev pub IsFound : History → Type 0
  IsFound past =
      (existing : RunnerInstance) × Saw (event (find_runner r.key) (good (some existing))) past

  -- The provider showed none, and the store has confirmed that over time.
  abbrev pub IsLost : History → Type 0
  IsLost past =
      (now : ℕ) × Saw (event (find_runner r.key) (good none)) past
      × Saw
          (event
            (store (
              StoreCall.observe_runner_missing r.key now h.limits.liveness_settle_window
                h.limits.liveness_confirmations))
            (good true))
          past

  -- The provider showed several instances.
  abbrev pub IsDuplicated : History → Type 0
  IsDuplicated past =
      (e : Failure) × (e.duplicate_instances ≡ true) × Saw (event (find_runner r.key) (bad e)) past

  -- The runner has never been online, and the time to register is over.
  abbrev pub IsLate : History → Type 0
  IsLate past =
      (is_zero r.registered_at ≡ true)
      × ((now : ℕ) × Saw (event time_now now) past
          × (r.provisioned_at + h.limits.registration_timeout ≤ now))

  -- The job has not completed.
  abbrev pub IsOpen : History → Type 0
  IsOpen past =
      (status : JobStatus) × (r.job_completed ≡ false)
      × (status ≢ job_completed)
      × Saw (event (workflow_job_status r.owner r.repository r.job_id) (good status)) past

  -- The job has completed, and an owned registration was removed and forgotten.
  abbrev pub IsRetired : History → Type 0
  IsRetired past =
      ((r.job_completed ≡ true)
        ⊎ Saw (event (workflow_job_status r.owner r.repository r.job_id) (good job_completed)) past)
      × IsRemoved past
      × (owns_registration r ≡ true
          → Saw (event (store (StoreCall.clear_jit r.key)) (good tt)) past)

  -- GitHub has no such runner, which the store has confirmed over time; a runner that was never
  -- online had its time to register.
  abbrev pub IsUnregistered : History → Type 0
  IsUnregistered past =
      ((now : ℕ) × Saw
          (event
            (store (
              StoreCall.observe_github_runner_missing r.key now h.limits.liveness_settle_window
                h.limits.liveness_confirmations))
            (good true))
          past)
      × ((is_zero r.registered_at ≡ false) ⊎ IsLate past)

  -- When a replacement is queued.
  abbrev pub IsReplaceable : History → Type 0
  IsReplaceable past =
      IsRemoved past
      × (IsLost past
          ⊎ (IsDuplicated past × Saw (event (cleanup_runner r.key) (good tt)) past)
          ⊎ Saw (event (delete_runner r.instance_id r.key) (good tt)) past)

  -- When the instance of an open job is deleted.
  abbrev pub IsUnused : History → Type 0
  IsUnused past =
      IsRemoved past
      × IsFound past
      × IsOpen past
      × IsLate past
      × Saw
          (event (repo_runner_status r.owner r.repository r.github_runner_id) (good runner_offline))
          past

  -- When the reaper may make its calls for a provisioned record.
  abbrev pub HasCause : History → Call → Type 0
  HasCause past (create_runner _) = ⊥
  HasCause past (generate_jit_config _ _ _ _ _) = ⊥
  HasCause past (delete_runner instance_id key) =
      (instance_id ≡ r.instance_id) × (key ≡ r.key) × IsUnused past
  HasCause past (cleanup_runner key) = (key ≡ r.key) × IsDuplicated past
  HasCause past (store (StoreCall.requeue_missing_runner key _)) =
      (key ≡ r.key) × IsReplaceable past
  HasCause past (store (StoreCall.schedule_deletion key)) =
      (key ≡ r.key) × IsFound past × (IsRetired past ⊎ IsUnregistered past)
  HasCause past (store (StoreCall.mark_deleted _)) = ⊥
  HasCause past (store (StoreCall.finish_deleted_runner _ _)) = ⊥
  HasCause past _ = Unit {0}
