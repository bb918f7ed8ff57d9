-- ===== src/Store/Registration.antt =====
-- internal/state/store.go: `MarkJITCreated`, which enters the identity of a runner, and meets the marker
-- of a completion that came before.
pub mod Durable
use github_runners_infra.Prelude.{
  ℕ, Bool, true, false, not, ◌&&◌, ◌||◌, Option, none, some, Text, if◌then◌else◌, ◌==◌,
}
use github_runners_infra.Dict.{get, put}
use github_runners_infra.Record.{Record, completed, deleted, status_is, is_terminal}
use github_runners_infra.Store.{FileStore, Os, Result, ok, err, not_found}
use github_runners_infra.Store.Identity.{runner_identity_key, completion_marker_key}
use github_runners_infra.Store.Update.{set_record, restore, save_or_undo}

-- `MarkJITCreated`: the identity of the runner enters the record.
unfoldable pub with_jit : ℕ → ℕ → Text → Record → Record
with_jit now runner_id runner_name r = record r {
  github_runner_id = runner_id;
  github_runner_owned = true;
  runner_name = runner_name;
  updated_at = now;
}

-- A marker says that the runner has completed already.
unfoldable pub with_marker : Record → Record → Record
with_marker marker r =
    let same_job = r.job_id == marker.job_id in
    let done = r.job_completed || same_job in
    record r {
      status = completed;
      job_completed = done;
      recheck_demand = not same_job && not done;
      defer_deletion = false;
      next_attempt_at = 0;
    }

unfoldable pub spent_marker : ℕ → Record → Record
spent_marker now marker = record marker {
  status = deleted;
  defer_deletion = false;
  updated_at = now;
}

-- A marker that is still to be used.
unfoldable pub live_marker : Option Record → Option Record
live_marker none = none
live_marker (some m) = if status_is deleted m.status then none else some m

undo_jit : Text → Record → Text → Option Record → Bool → FileStore → FileStore
unfolding restore
undo_jit key r marker_key none keys_dirty s = record (restore key r s) { keys_dirty = keys_dirty }
undo_jit key r marker_key (some m) keys_dirty s = record (restore marker_key m (restore key r s)) {
  keys_dirty = keys_dirty;
}

write_jit : ℕ → Text → Record → Text → Option Record → FileStore → FileStore
unfolding set_record with_marker spent_marker
write_jit now key r marker_key none s = set_record key r s
write_jit now key r marker_key (some m) s =
    set_record key (with_marker m r) (set_record marker_key (spent_marker now m) s)

index_identity : Text → Text → Result (Unit {0}) × FileStore → Result (Unit {0}) × FileStore
index_identity identity key (err e, s) = (err e, s)
index_identity identity key (ok u, s) =
    (ok u, record s { runner_keys = put identity key s.runner_keys })

unfoldable pub mark_jit :
    Os → ℕ → Text → ℕ → Text → Option Record → FileStore → Result (Unit {0}) × FileStore
unfolding with_jit live_marker undo_jit write_jit index_identity save_or_undo
mark_jit os now key runner_id runner_name none s = (err (not_found key), s)
mark_jit os now key runner_id runner_name (some r) s =
    if is_terminal r.status
    then (ok tt, s)
    else let marker_key = completion_marker_key r.owner r.repository runner_id in
      let marker = live_marker (get marker_key s.records) in
      index_identity (runner_identity_key r.owner r.repository runner_id) key (
        save_or_undo os (undo_jit key r marker_key marker s.keys_dirty) tt
          (write_jit now key (with_jit now runner_id runner_name r) marker_key marker s))

unfoldable pub mark_jit_created :
    Os → ℕ → Text → ℕ → Text → FileStore → Result (Unit {0}) × FileStore
unfolding mark_jit
mark_jit_created os now key runner_id runner_name s =
    mark_jit os now key runner_id runner_name (get key s.records) s
