-- ===== src/Store/Sweep.antt =====
-- internal/state/store.go: the methods that go over all records. A Go map gives its entries in any
-- order; the model takes that of the list.
pub mod Durable
use github_runners_infra.Prelude.{
  ℕ, ◌+◌, Bool, true, false, not, ◌&&◌, ◌||◌, Option, none, some, List, [], ◌∷◌, Text, is_empty,
  text_eq, leb, ltb, if◌then◌else◌, codes, ◌==◌, length, mem,
}
use github_runners_infra.Dict.{Dict, get, put, delete, keys}
use github_runners_infra.Record.{
  Record, no_work, work_delete, pending, provisioned, completed, deleted, failed, orphaned,
  status_is, work_is, is_terminal, is_zero, before, after, older_than,
}
use github_runners_infra.Store.{FileStore, Os, Result, ok, err, Error}
use github_runners_infra.Store.Save.{mark_dirty}
use github_runners_infra.Store.Update.{set_record, save_or_undo}

-- The values that pass a test.
unfoldable pub select : (Record → Bool) → Dict Record → List Record
select p [] = []
select p ((k, r) ∷ d) = let rest = select p d in if p r then r ∷ rest else rest

-- `ListProvisioned` and `ListOrphaned`
unfoldable pub list_provisioned : FileStore → List Record
unfolding select
list_provisioned s = select (λ r. status_is provisioned r.status) s.records

unfoldable pub list_orphaned : FileStore → List Record
unfolding select
list_orphaned s = select (λ r. status_is orphaned r.status) s.records

unfoldable pub is_known_instance : Record → Bool
is_known_instance r =
    not (is_empty r.instance_id)
    && not (status_is deleted r.status)
    && not (status_is orphaned r.status)

-- `KnownInstanceIDs`, a set.
known_ids : Dict Record → List Text
unfolding is_known_instance
known_ids [] = []
known_ids ((k, r) ∷ d) =
    let rest = known_ids d in if is_known_instance r then r.instance_id ∷ rest else rest

unfoldable pub known_instance_ids : FileStore → List Text
unfolding known_ids
known_instance_ids s = known_ids s.records

-- The tests of `ListExpired` on one record; `now` is its reading of the clock.
unfoldable pub retry_due : ℕ → Record → Bool
retry_due now r = is_zero r.next_attempt_at || not (after r.next_attempt_at now)

unfoldable pub is_expired : ℕ → ℕ → Record → Bool
unfolding retry_due
is_expired now cutoff r =
    let stale_provisioned =
      status_is provisioned r.status
      && not (is_zero r.provisioned_at)
      && before r.provisioned_at cutoff in
    let due = retry_due now r in
    let stale_terminal =
      due
      && (status_is failed r.status || status_is completed r.status)
      && before r.created_at cutoff in
    let failed_completion_race =
      due
      && status_is completed r.status
      && not r.defer_deletion
      && is_empty r.instance_id
      && not (is_empty r.last_error) in
    let failed_provision = due && status_is failed r.status && is_empty r.instance_id in
    let deferred_cancellation_due = status_is completed r.status && r.defer_deletion && due in
    work_is no_work r.claimed_work
    && (stale_provisioned || stale_terminal || failed_completion_race || failed_provision
        || deferred_cancellation_due)

-- `sort.Slice` by the time of creation; equal times stay in the order of the list.
insert_by_age : Record → List Record → List Record
insert_by_age r [] = r ∷ []
insert_by_age r (q ∷ rs) =
    if ltb q.created_at r.created_at then q ∷ insert_by_age r rs else r ∷ q ∷ rs

unfoldable pub sort_by_age : List Record → List Record
unfolding insert_by_age
sort_by_age [] = []
sort_by_age (r ∷ rs) = insert_by_age r (sort_by_age rs)

-- `ListExpired`
unfoldable pub list_expired : ℕ → ℕ → FileStore → List Record
unfolding select sort_by_age is_expired
list_expired now cutoff s = sort_by_age (select (is_expired now cutoff) s.records)

-- An orphan of the provider that is older than the cutoff and still holds an instance.
unfoldable pub is_swept : Text → ℕ → Record → Bool
is_swept provider cutoff r =
    let created = if is_zero r.provisioned_at then r.created_at else r.provisioned_at in
    status_is orphaned r.status
    && text_eq r.provider provider
    && not (is_empty r.instance_id)
    && before created cutoff

-- The store in the loop, with what the written keys held before.
pub record Sweep : Type 0 where
  pub store : FileStore
  pub undo : Dict Record

-- The loop over the keys of `d`, each of which is visited once.
unfoldable pub sweep_one : (Text → ℕ) → Text → ℕ → Text → Option Record → Sweep → Sweep
unfolding is_swept set_record
sweep_one clock provider cutoff k none w = w
sweep_one clock provider cutoff k (some r) w =
    if is_swept provider cutoff r
    then record {
      store = set_record k (record r { instance_id = []; updated_at = clock k }) w.store;
      undo = put k r w.undo;
    }
    else w

unfoldable pub release_swept : (Text → ℕ) → Text → ℕ → Dict Record → List Text → Sweep → Sweep
unfolding sweep_one
release_swept clock provider cutoff d [] w = w
release_swept clock provider cutoff d (k ∷ ks) w =
    release_swept clock provider cutoff d ks (sweep_one clock provider cutoff k (get k d) w)

-- for key, record := range before { s.records[key] = record }
unfoldable pub put_back : Dict Record → Dict Record → Dict Record
put_back [] d = d
put_back ((k, r) ∷ undo) d = put_back undo (put k r d)

undo_sweep : Dict Record → FileStore → FileStore
unfolding put_back
undo_sweep undo s = record s { records = put_back undo s.records }

-- `ReleaseSweptOrphans`; `clock` is read once for each key.
unfoldable pub release_swept_orphans : Os → (Text → ℕ) → Text → ℕ → FileStore → Result ℕ × FileStore
unfolding release_swept undo_sweep save_or_undo
release_swept_orphans os clock provider cutoff s =
    let w =
      release_swept clock provider cutoff s.records (keys s.records)
        (record { store = s; undo = [] }) in
    if length w.undo == 0
    then (ok 0, w.store)
    else save_or_undo os (undo_sweep w.undo) (length w.undo) w.store

-- The records that `PruneDeleted` may remove, once they are old enough.
unfoldable pub is_prunable : Record → Bool
is_prunable r =
    status_is deleted r.status
    || (status_is orphaned r.status && is_empty r.instance_id && r.github_runner_id == 0)

unfoldable pub is_pruned : ℕ → ℕ → Record → Bool
unfolding is_prunable
is_pruned now retention r = is_prunable r && older_than r.updated_at now retention

unfoldable pub prune_one : ℕ → ℕ → Text → Option Record → Sweep → Sweep
unfolding is_pruned mark_dirty
prune_one now retention k none w = w
prune_one now retention k (some r) w =
    if is_pruned now retention r
    then record {
      store = mark_dirty k (record (w.store) { records = delete k w.store.records });
      undo = put k r w.undo;
    }
    else w

unfoldable pub prune : ℕ → ℕ → Dict Record → List Text → Sweep → Sweep
unfolding prune_one
prune now retention d [] w = w
prune now retention d (k ∷ ks) w = prune now retention d ks (prune_one now retention k (get k d) w)

undo_prune : Dict Record → FileStore → FileStore
unfolding put_back
undo_prune undo s = record s { records = put_back undo s.records; keys_dirty = true }

-- `PruneDeleted`
unfoldable pub prune_deleted : Os → ℕ → FileStore → Result ℕ × FileStore
unfolding prune undo_prune save_or_undo
prune_deleted os now s =
    let w =
      prune now s.deleted_retention s.records (keys s.records) (record { store = s; undo = [] }) in
    if length w.undo == 0
    then (ok 0, w.store)
    else save_or_undo os (undo_prune w.undo) (length w.undo)
        (record (w.store) { keys_dirty = true })
