-- ===== src/Store/Completion.antt =====
-- internal/state/store.go: what ties a job's completion to a runner by GitHub's runner ID:
-- `Create`, `RecordCompletion`, `OwnsRunner` and `Get`.
pub mod Stranded
pub mod Durable
use github_runners_infra.Prelude.{
  ℕ, Bool, true, false, not, ◌&&◌, ◌||◌, Option, none, some, [], Text, is_empty, text_eq,
  equal_fold, if◌then◌else◌, ◌==◌,
}
use github_runners_infra.Dict.{get, put, delete}
use github_runners_infra.Record.{
  Record, no_work, work_delete, pending, completed, deleted, orphaned, status_is, work_is,
}
use github_runners_infra.Store.{Entry, FileStore, Os, Result, ok, err}
use github_runners_infra.Store.Identity.{runner_identity_key, completion_marker_key}
use github_runners_infra.Store.Journal.{apply_entry}
use github_runners_infra.Store.Update.{set_record, save_or_undo}

-- A write of a key that may be new to the map.
unfoldable pub add_record : Text → Record → FileStore → FileStore
unfolding set_record
add_record key r s = record (set_record key r s) { keys_dirty = true }

undo_create : Text → FileStore → FileStore
undo_create key s = record s { records = delete key s.records; keys_dirty = true }

abbrev pub new_record : ℕ → Record → Record
new_record now r = record r { status = pending; created_at = now; updated_at = now }

-- `Create`
unfoldable pub create : Os → ℕ → Record → FileStore → Result Bool × FileStore
unfolding add_record undo_create save_or_undo
create os now r s = elim (get r.key s.records) [
  | some _ ↦ (ok false, s)
  | none ↦ save_or_undo os (undo_create r.key) true (add_record r.key (new_record now r) s)
]

-- `Get`; the zero record of a missing key is not looked at by any caller.
unfoldable pub get_record : Text → FileStore → Result (Option Record) × FileStore
get_record key s = (ok (get key s.records), s)

-- `OwnsRunner`
unfoldable pub owns_runner : Text → Text → ℕ → FileStore → Result Bool × FileStore
owns_runner owner repository runner_id s =
    elim (get (runner_identity_key owner repository runner_id) s.runner_keys) [
      | none ↦ (ok false, s)
      | some key ↦ elim (get key s.records) [
        | none ↦ (ok false, s)
        | some r ↦ (
          ok (
              not (status_is deleted r.status)
              && r.github_runner_owned
              && r.github_runner_id == runner_id),
          s,
        )
      ]
    ]

-- `recordUndo` and `remember`: what each key held before its first write.
unfoldable pub remember : Text → Entry → FileStore → Entry
remember key before s = elim (get key before) [
  | some _ ↦ before
  | none ↦ put key (get key s.records) before
]

-- `rollback`
unfoldable pub rollback : Entry → FileStore → FileStore
unfolding apply_entry
rollback before s = record s { records = apply_entry before s.records }

-- `completionMatches`
unfoldable pub completion_matches : Record → Record → Bool
completion_matches r completion =
    not (status_is deleted r.status)
    && r.github_runner_owned
    && r.github_runner_id == completion.github_runner_id
    && equal_fold r.owner completion.owner
    && equal_fold r.repository completion.repository

-- The write to the record that was assigned the runner.
unfoldable pub complete_runner : ℕ → Record → Record → Record
complete_runner now completion r =
    let same_job = r.job_id == completion.job_id in
    let done = r.job_completed || same_job in
    let busy = work_is work_delete r.claimed_work in
    record r {
      job_completed = done;
      recheck_demand = not same_job && not done;
      status = if busy then r.status else completed;
      next_attempt_at = if busy then r.next_attempt_at else 0;
      defer_deletion = false;
      updated_at = now;
    }

-- The marker that `addCompletionMarker` writes.
unfoldable pub completion_marker : ℕ → Record → Record
completion_marker now completion = record completion {
  key = completion_marker_key completion.owner completion.repository completion.github_runner_id;
  status = completed;
  github_runner_owned = false;
  defer_deletion = true;
  claimed_work = no_work;
  instance_id = [];
  droplet_id = 0;
  created_at = now;
  updated_at = now;
}

-- The maps during a completion: the store, and what `rollback` will put back.
pub record Progress : Type 0 where
  pub store : FileStore
  pub before : Entry

unfoldable pub add_completion_marker : ℕ → Record → Progress → Progress
unfolding completion_marker add_record remember
add_completion_marker now completion p =
    let marker = completion_marker now completion in
    record {
      store = add_record marker.key marker p.store;
      before = remember marker.key p.before p.store;
    }

-- The runner's identity is in the index under `key`, which holds `found`.
unfoldable pub complete_indexed :
    ℕ → Record → Text → Text → Option Record → Progress → Text × Text × Progress
unfolding completion_matches complete_runner add_completion_marker remember set_record
complete_indexed now completion identity key none p =
    ([], identity, add_completion_marker now completion p)
complete_indexed now completion identity key (some r) p =
    if completion_matches r completion
    then (
      key,
      [],
      record {
        store = set_record key (complete_runner now completion r) p.store;
        before = remember key p.before p.store;
      },
    )
    else ([], identity, add_completion_marker now completion p)

-- By what the index holds under the runner's identity.
unfoldable pub complete_identity :
    ℕ → Record → Text → Option Text → Progress → Text × Text × Progress
unfolding complete_indexed
complete_identity now completion identity none p = ([], [], add_completion_marker now completion p)
complete_identity now completion identity (some key) p =
    complete_indexed now completion identity key (get key p.store.records) p

-- `reconcileRunnerCompletion`: the matched key, the stale identity (empty if there is none) and the
-- maps.
unfoldable pub reconcile_runner_completion : ℕ → Record → Progress → Text × Text × Progress
unfolding complete_identity
reconcile_runner_completion now completion p =
    if completion.github_runner_id == 0
    then ([], [], p)
    else let identity =
        runner_identity_key completion.owner completion.repository completion.github_runner_id in
      complete_identity now completion identity (get identity p.store.runner_keys) p

-- The tombstone of a job that the store does not know.
unfoldable pub tombstone : ℕ → Record → Record
tombstone now completion = record completion {
  github_runner_id = 0;
  status = completed;
  job_completed = true;
  defer_deletion = true;
  claimed_work = no_work;
  instance_id = [];
  droplet_id = 0;
  created_at = now;
  updated_at = now;
}

-- The write to a job that the store knows.
unfoldable pub complete_job : ℕ → Record → Record → Record
complete_job now completion r =
    let r1 = record r { job_completed = true; recheck_demand = false; updated_at = now } in
    if not (completion.github_runner_id == 0)
      || status_is deleted r.status
      || status_is orphaned r.status
    then r1
    else record r1 {
      status = completed;
      defer_deletion = true;
      next_attempt_at = completion.next_attempt_at;
    }

-- The event's own job, whose key holds `found`.
unfoldable pub complete_event : ℕ → Record → Option Record → Progress → Progress
unfolding tombstone complete_job remember set_record add_record
complete_event now completion none p = record {
  store = add_record completion.key (tombstone now completion) p.store;
  before = remember completion.key p.before p.store;
}
complete_event now completion (some r) p = record {
  store = set_record completion.key (complete_job now completion r) p.store;
  before = remember completion.key p.before p.store;
}

-- `reconcileEventCompletion`
unfoldable pub reconcile_event_completion : ℕ → Record → Text → Progress → Progress
unfolding complete_event
reconcile_event_completion now completion matched p =
    if text_eq matched completion.key
    then p
    else complete_event now completion (get completion.key p.store.records) p

-- The undo of `RecordCompletion`.
undo_completion : Entry → Bool → FileStore → FileStore
unfolding rollback
undo_completion before keys_dirty s = record (rollback before s) { keys_dirty = keys_dirty }

-- A stale identity leaves the index once the save succeeded.
drop_identity : Text → Result (Unit {0}) × FileStore → Result (Unit {0}) × FileStore
drop_identity identity (err e, s) = (err e, s)
drop_identity identity (ok u, s) = (
  ok u,
  if is_empty identity then s else record s { runner_keys = delete identity s.runner_keys },
)

-- `RecordCompletion`
unfoldable pub record_completion : Os → ℕ → Record → FileStore → Result (Unit {0}) × FileStore
unfolding reconcile_runner_completion reconcile_event_completion undo_completion drop_identity
    save_or_undo
record_completion os now completion s =
    let (matched, stale, p) =
      reconcile_runner_completion now completion (record { store = s; before = [] }) in
    let p' = reconcile_event_completion now completion matched p in
    drop_identity stale (save_or_undo os (undo_completion p'.before s.keys_dirty) tt p'.store)
