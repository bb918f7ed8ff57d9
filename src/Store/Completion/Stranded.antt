-- ===== src/Store/Completion/Stranded.antt =====
-- internal/state/store.go: a completion without a runner, during a deletion that waits for its
-- confirmation.
use github_runners_infra.Prelude.{ℕ, false, true, Text, [], ◌≡◌, ◌≢◌, arith}
use github_runners_infra.Record.{Record, completed, deleting, work_delete}
use github_runners_infra.Record.Claims.{on_defer_deletion_confirmation}
use github_runners_infra.Record.Deleting.{on_schedule_deletion}
use github_runners_infra.Store.Claim.{consider, select_work, exhausted, skip, is_live}
use github_runners_infra.Store.Completion.{complete_job}
use github_runners_infra.Store.Observe.{cleanup_ready}
use github_runners_infra.Store.Sweep.{is_expired}

-- A record that no worker and no reaper takes up: the scheduler skips it, the sweep for expired
-- records leaves it out, a cleanup does not begin and a deletion is not scheduled.
pub record IsStranded (r : Record) : Type 0 where
  pub still_claimed : r.claimed_work ≡ work_delete
  pub not_scheduled :
      (now max_attempts live limit : ℕ) → consider now max_attempts live limit r ≡ skip
  pub not_expired : (now cutoff : ℕ) → is_expired now cutoff r ≡ false
  pub not_cleaned : (now : ℕ) → cleanup_ready now r ≡ false
  pub not_deletable : on_schedule_deletion r ≡ r
  pub occupies_slot : r.instance_id ≢ [] → is_live r ≡ true

IsStranded-completed :
    (r : Record)
    → r.status ≡ completed
    → r.claimed_work ≡ work_delete
    → r.defer_deletion ≡ true
    → IsStranded r
unfolding consider select_work exhausted is_expired cleanup_ready on_schedule_deletion is_live
IsStranded-completed r s c d = record {
  still_claimed = c;
  not_scheduled = λ now max_attempts live limit. ground arith;
  not_expired = λ now cutoff. ground arith;
  not_cleaned = λ now. ground arith;
  not_deletable = ground arith;
  occupies_slot = λ i. ground arith;
}

-- Where a deletion is claimed and a completion without a runner arrives for its job before
-- `DeferDeletionConfirmation`, the latter leaves the record as it is, so that it stays
-- claimed: neither the scheduler nor the reaper takes it up, and an instance that it holds keeps its
-- slot.
pub deferral-IsStranded :
    (r completion : Record) (now : ℕ) (message : Text) (retry_at : ℕ)
    → r.status ≡ deleting
    → r.claimed_work ≡ work_delete
    → completion.github_runner_id ≡ 0
    → (on_defer_deletion_confirmation message retry_at (complete_job now completion r)
        ≡ complete_job now completion r)
      × IsStranded (complete_job now completion r)
unfolding on_defer_deletion_confirmation complete_job
deferral-IsStranded r completion now message retry_at s c e = (
  ground arith,
  IsStranded-completed (complete_job now completion r) (ground arith) (ground arith) (ground arith),
)
