-- ===== src/Store/Claim.antt =====
-- internal/state/store.go, `ClaimNext`: the scheduler of the workers, with its admission ceiling.
pub mod Admission
pub mod Order
pub mod Answer
use github_runners_infra.Prelude.{
  ℕ, ◌+◌, Bool, true, false, not, ◌&&◌, ◌||◌, Option, none, some, List, [], ◌∷◌, Text, is_empty,
  text_le, text_eq, ◌==◌, ltb, leb, if◌then◌else◌, codes,
}
use github_runners_infra.Dict.{Dict, get, put, keys, count}
use github_runners_infra.Record.{
  Record, WorkKind, no_work, work_provision, work_delete, pending, provisioning, completed,
  deleting, deleted, failed, orphaned, status_is, work_is, after, holds_identity,
}
use github_runners_infra.Store.{
  Exec, FileStore, Os, Result, ok, err, Error, canceled, ◌>>=◌, ◌>>◌, continue, need, pure,
  limit_not_positive, modify,
}
use github_runners_infra.Store.Update.{write_record}

-- `sort.Strings`, by insertion.
unfoldable pub insert_key : Text → List Text → List Text
insert_key k [] = k ∷ []
insert_key k (j ∷ js) = if text_le k j then k ∷ j ∷ js else j ∷ insert_key k js

unfoldable pub sort_keys : List Text → List Text
unfolding insert_key
sort_keys [] = []
sort_keys (k ∷ ks) = insert_key k (sort_keys ks)

-- `orderedKeysLocked`: the state with the keys sorted again if they are out of date.
unfoldable pub refresh_ordered_keys : FileStore → FileStore
refresh_ordered_keys s =
    if s.keys_dirty
    then record s { ordered_keys = sort_keys (keys s.records); keys_dirty = false }
    else s

-- The test that `liveRunnerCountLocked` counts by.
unfoldable pub is_live : Record → Bool
is_live r =
    if status_is deleted r.status || (status_is orphaned r.status && is_empty r.instance_id)
    then false
    else holds_identity r
      || work_is work_provision r.claimed_work
      || status_is provisioning r.status

unfoldable pub live_runner_count : Dict Record → ℕ
live_runner_count d = count is_live d

provisioning_exhausted : Text
provisioning_exhausted = codes "provisioning retry budget exhausted"

deletion_exhausted : Text
deletion_exhausted = codes "deletion retry budget exhausted; operator cleanup required"

-- What one round of the loop does with a record.
pub data Verdict : Type 0 where
  -- `continue` with nothing written
  skip : Verdict
  -- the record is written, and the loop goes on
  give_up : Record → Verdict
  -- the record is written and handed to the worker
  claim : Record → WorkKind → Verdict

-- A completed record whose instance may be deleted.
abbrev pub is_deletable : Record → Bool
is_deletable r =
    status_is completed r.status && not r.defer_deletion && not (is_empty r.instance_id)

unfoldable pub can_provision : ℕ → ℕ → Record → Bool
can_provision live limit r = ltb live limit || (live == limit && holds_identity r)

unfoldable pub claimed : ℕ → WorkKind → Record → Verdict
claimed now kind r =
    claim (record r { updated_at = now; next_attempt_at = 0; claimed_work = kind }) kind

-- The record whose retry budget is spent, in its terminal status.
unfoldable pub exhausted : ℕ → ℕ → Record → Option Record
unfolding provisioning_exhausted deletion_exhausted
exhausted now max_attempts r =
    if status_is pending r.status && leb max_attempts r.attempts
    then some (record r { status = failed; last_error = provisioning_exhausted; updated_at = now })
    else if is_deletable r && leb max_attempts r.delete_attempts
    then some (record r { status = orphaned; last_error = deletion_exhausted; updated_at = now })
    else none

-- The `switch` of the loop.
unfoldable pub select_work : ℕ → ℕ → ℕ → ℕ → Record → Verdict
unfolding can_provision claimed
select_work now max_attempts live limit r =
    if work_is no_work r.claimed_work
      && status_is pending r.status
      && ltb r.attempts max_attempts
      && can_provision live limit r
    then claimed now work_provision (record r { status = provisioning; attempts = r.attempts + 1 })
    else if work_is no_work r.claimed_work && is_deletable r && ltb r.delete_attempts max_attempts
    then claimed now work_delete
        (record r { status = deleting; delete_attempts = r.delete_attempts + 1 })
    else skip

-- The body of the loop up to the write.
unfoldable pub consider : ℕ → ℕ → ℕ → ℕ → Record → Verdict
consider now max_attempts live limit r =
    if after r.next_attempt_at now then skip else elim (exhausted now max_attempts r) [
      | some r' ↦ give_up r'
      | none ↦ select_work now max_attempts live limit r
    ]

abbrev pub Claimed : Type 0
Claimed = Option (Record × WorkKind)

-- The rest of the round: `some` ends the loop with a claim.
unfoldable pub act : Os → Text → Record → Verdict → FileStore → Result Claimed × FileStore
unfolding write_record
act os key r skip s = (ok none, s)
act os key r (give_up r') s = write_record os key r r' none s
act os key r (claim r' kind) s = write_record os key r r' (some (r', kind)) s

-- One round. A key with no record reads as the zero record, which every test passes over.
unfoldable pub round_on :
    Os → ℕ → ℕ → ℕ → Text → Option Record → FileStore → Result Claimed × FileStore
unfolding consider act
round_on os now max_attempts live key none s = (ok none, s)
round_on os now max_attempts live key (some r) s =
    act os key r (consider now max_attempts live s.max_live_runners r) s

unfoldable pub round : Os → ℕ → ℕ → ℕ → Text → FileStore → Result Claimed × FileStore
unfolding round_on
round os now max_attempts live key s = round_on os now max_attempts live key (get key s.records) s

-- The loop goes on if the round made no claim.
abbrev pub go_on :
    (FileStore → Result Claimed × FileStore) → Claimed → FileStore → Result Claimed × FileStore
go_on rest none s = rest s
go_on rest (some c) s = (ok (some c), s)

-- `os` answers the save of each key.
unfoldable pub claim_loop :
    (Text → Os) → ℕ → ℕ → ℕ → List Text → FileStore → Result Claimed × FileStore
unfolding round
claim_loop os now max_attempts live [] s = (ok none, s)
claim_loop os now max_attempts live (key ∷ keys) s =
    let (r, s') = round (os key) now max_attempts live key s in
    continue r (go_on (claim_loop os now max_attempts live keys)) s'

-- `canceled_before` and `canceled_after` are `ctx.Err()` on both sides of the lock.
unfoldable pub claim_next :
    (Text → Os) → Bool → Bool → ℕ → ℕ → FileStore → Result Claimed × FileStore
unfolding claim_loop refresh_ordered_keys live_runner_count
claim_next os canceled_before canceled_after now max_attempts s =
    if canceled_before || canceled_after
    then (err canceled, s)
    else let s' = refresh_ordered_keys s in
      claim_loop os now max_attempts (live_runner_count s'.records) s'.ordered_keys s'

-- `SetMaxLiveRunners`; the limit is an `int`, and every one that is not positive is refused.
unfoldable pub set_max_live_runners : ℕ → FileStore → Result (Unit {0}) × FileStore
set_max_live_runners limit s =
    if limit == 0
    then (err limit_not_positive, s)
    else (ok tt, record s { max_live_runners = limit })
