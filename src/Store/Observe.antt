-- ===== src/Store/Observe.antt =====
-- internal/state/store.go: the methods that read, decide and write under one lock, and report what
-- they decided.
use github_runners_infra.Prelude.{
  ℕ, ◌+◌, Bool, false, not, ◌&&◌, ◌||◌, none, some, Text, is_empty, text_eq, leb, if◌then◌else◌,
  codes,
}
use github_runners_infra.Dict.{get}
use github_runners_infra.Record.{
  Record, no_work, work_delete, provisioned, deleting, orphaned, status_is, work_is, is_zero, after,
  is_terminal,
}
use github_runners_infra.Store.{FileStore, Os, Result, ok, err, not_found, unclaimed_instance}
use github_runners_infra.Store.Update.{write_record}

-- One more observation that the provider does not list the instance.
unfoldable pub provider_missed : ℕ → Record → Record
provider_missed now r =
    let first = is_zero r.missing_since in
    record r {
      missing_since = if first then now else r.missing_since;
      missing_checks = if first then 1 else r.missing_checks + 1;
      updated_at = now;
    }

-- One more observation that GitHub does not list the runner.
unfoldable pub github_missed : ℕ → Record → Record
github_missed now r =
    let first = is_zero r.github_missing_since in
    record r {
      github_missing_since = if first then now else r.github_missing_since;
      github_missing_checks = if first then 1 else r.github_missing_checks + 1;
      updated_at = now;
    }

-- Enough observations, over a long enough time.
abbrev pub is_confirmed : ℕ → ℕ → ℕ → ℕ → ℕ → Bool
is_confirmed since checks now settle_window confirmations =
    leb confirmations checks && not (after (since + settle_window) now)

module _ (os : Os) (key : Text) where
  -- `ObserveRunnerMissing`
  unfoldable pub observe_runner_missing : ℕ → ℕ → ℕ → FileStore → Result Bool × FileStore
  unfolding provider_missed write_record
  observe_runner_missing now settle_window confirmations s = elim (get key s.records) [
    | none ↦ (err (not_found key), s)
    | some r ↦
        if not (status_is provisioned r.status)
        then (ok false, s)
        else let r' = provider_missed now r in
          write_record os key r r'
            (is_confirmed r'.missing_since r'.missing_checks now settle_window confirmations) s
  ]

  -- `ObserveGitHubRunnerMissing`
  unfoldable pub observe_github_runner_missing : ℕ → ℕ → ℕ → FileStore → Result Bool × FileStore
  unfolding github_missed write_record
  observe_github_runner_missing now settle_window confirmations s = elim (get key s.records) [
    | none ↦ (err (not_found key), s)
    | some r ↦
        if not (status_is provisioned r.status)
        then (ok false, s)
        else let r' = github_missed now r in
          write_record os key r r'
            (is_confirmed r'.github_missing_since r'.github_missing_checks now settle_window
              confirmations)
            s
  ]

  -- `MarkDeletionAccepted`
  unfoldable pub mark_deletion_accepted : ℕ → Text → FileStore → Result (Unit {0}) × FileStore
  unfolding write_record
  mark_deletion_accepted now instance_id s = elim (get key s.records) [
    | none ↦ (err (unclaimed_instance instance_id), s)
    | some r ↦
        if is_empty instance_id
          || not (text_eq r.instance_id instance_id)
          || not (status_is deleting r.status)
          || not (work_is work_delete r.claimed_work)
        then (err (unclaimed_instance instance_id), s)
        else write_record os key r
            (record r { deletion_accepted_id = instance_id; updated_at = now }) tt s
  ]

cleanup_exhausted : Text
cleanup_exhausted = codes "cleanup retry budget exhausted; operator cleanup required"

-- The write of `BeginCleanupAttempt`; `now` is the reading of the clock in its branch.
unfoldable pub cleanup_attempt : ℕ → ℕ → Record → Record
unfolding cleanup_exhausted
cleanup_attempt now max_attempts r =
    if leb max_attempts r.delete_attempts
    then record r {
      status = orphaned;
      last_error = cleanup_exhausted;
      next_attempt_at = 0;
      updated_at = now;
    }
    else record r { delete_attempts = r.delete_attempts + 1; updated_at = now }

-- The reaper may start a cleanup of the record at `now`.
unfoldable pub cleanup_ready : ℕ → Record → Bool
cleanup_ready now r =
    not (is_terminal r.status || not (work_is no_work r.claimed_work))
    && not (not (is_zero r.next_attempt_at) && after r.next_attempt_at now)

-- `BeginCleanupAttempt`: the attempts used and whether the cleanup may go on. `due` and `now` are
-- its two readings of the clock. After an error it returns no result that its callers read.
unfoldable pub begin_cleanup_attempt :
    Os → Text → ℕ → ℕ → ℕ → FileStore → Result (ℕ × Bool) × FileStore
unfolding cleanup_attempt cleanup_ready write_record
begin_cleanup_attempt os key due now max_attempts s = elim (get key s.records) [
  | none ↦ (err (not_found key), s)
  | some r ↦
      if not (cleanup_ready due r)
      then (ok (r.delete_attempts, false), s)
      else let r' = cleanup_attempt now max_attempts r in
        write_record os key r r' (r'.delete_attempts, not (status_is orphaned r'.status)) s
]
