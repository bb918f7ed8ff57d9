-- ===== src/Store/Lifecycle.antt =====
-- The lifecycle of a record that the store holds, as a step relation: one constructor for the closures
-- of `update`, and one for each other write of internal/state/store.go to a record that exists, with
-- the tests that come before the write. Opening, pruning, the rollback of a failed save and the writing
-- of a new record, such as the marker of a completion that takes the key of an old one, are not among
-- them.
pub mod Claims
pub mod Terminal
pub mod Counters
use github_runners_infra.Prelude.{ℕ, false, true, ◌≡◌, Text, []}
use github_runners_infra.Record.{
  Record, WorkKind, work_delete, deleting, provisioned, status_is, is_terminal,
}
use github_runners_infra.Record.Transition.{Mutation}
use github_runners_infra.Store.Claim.{consider, claim, give_up}
use github_runners_infra.Store.Completion.{completion_matches, complete_runner, complete_job}
use github_runners_infra.Store.Observe.{
  provider_missed, github_missed, cleanup_ready, cleanup_attempt,
}
use github_runners_infra.Store.Registration.{with_jit, with_marker, spent_marker}
use github_runners_infra.Store.Sweep.{is_swept}

pub data Change (r : Record) : Record → Type 0 where
  -- `update`
  mutated : {r' : Record} → Mutation r r' → Change r r'
  -- `ClaimNext`: a claim, or a spent retry budget
  claimed :
      (now max_attempts live limit : ℕ) (kind : WorkKind) {r' : Record}
      → consider now max_attempts live limit r ≡ claim r' kind
      → Change r r'
  spent :
      (now max_attempts live limit : ℕ) {r' : Record}
      → consider now max_attempts live limit r ≡ give_up r'
      → Change r r'
  -- `RecordCompletion`, at the record of the runner and at that of the job
  runner_completed :
      (now : ℕ) (completion : Record)
      → completion_matches r completion ≡ true
      → Change r (complete_runner now completion r)
  job_completed : (now : ℕ) (completion : Record) → Change r (complete_job now completion r)
  -- `MarkJITCreated`, without and with a marker of the runner, and at that marker
  registered :
      (now runner_id : ℕ) (runner_name : Text)
      → is_terminal r.status ≡ false
      → Change r (with_jit now runner_id runner_name r)
  registered_late :
      (now runner_id : ℕ) (runner_name : Text) (marker : Record)
      → is_terminal r.status ≡ false
      → Change r (with_marker marker (with_jit now runner_id runner_name r))
  marker_spent : (now : ℕ) → Change r (spent_marker now r)
  -- `ObserveRunnerMissing` and `ObserveGitHubRunnerMissing`
  provider_observed :
      (now : ℕ) → status_is provisioned r.status ≡ true → Change r (provider_missed now r)
  github_observed :
      (now : ℕ) → status_is provisioned r.status ≡ true → Change r (github_missed now r)
  -- `MarkDeletionAccepted`
  deletion_accepted :
      (now : ℕ)
      → r.status ≡ deleting
      → r.claimed_work ≡ work_delete
      → Change r (record r { deletion_accepted_id = r.instance_id; updated_at = now })
  -- `BeginCleanupAttempt`
  cleanup_begun :
      (due now max_attempts : ℕ)
      → cleanup_ready due r ≡ true
      → Change r (cleanup_attempt now max_attempts r)
  -- `ReleaseSweptOrphans`
  swept :
      (provider : Text) (cutoff now : ℕ)
      → is_swept provider cutoff r ≡ true
      → Change r (record r { instance_id = []; updated_at = now })
