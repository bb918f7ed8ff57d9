-- ===== src/Webhook/Stored.antt =====
-- What the calls that internal/webhook/handler.go makes of the store do to a record: the closures of
-- internal/state/store.go that they hand to `update`.
pub mod Frees
use github_runners_infra.Prelude.{ℕ, Option, none, some, Text, ◌≡◌, false, ◌∷◌}
use github_runners_infra.Record.{Record, WorkKind, no_work, is_terminal}
use github_runners_infra.Record.Claims.{
  on_release_claim, on_defer_rate_limited_work, on_defer_provisioning_demand,
  on_defer_deletion_confirmation, on_defer_reassignment_demand,
}
use github_runners_infra.Record.Provisioning.{
  on_clear_jit, on_mark_provisioned, on_mark_provision_failed, on_requeue_missing_runner,
}
use github_runners_infra.Record.Reconciling.{
  on_clear_provider_missing, on_clear_github_missing, on_record_runner_seen,
  on_clear_runner_missing, on_defer_reconciliation, on_defer_rate_limited_cleanup,
  on_defer_orphan_cleanup, on_release_absent_orphan,
}
use github_runners_infra.Record.Deleting.{
  on_mark_completed, on_schedule_deletion, on_mark_deleted, on_finish_deleted_runner,
  on_mark_delete_failed, on_mark_orphaned,
}
use github_runners_infra.Webhook.Calls.{
  Answer, StoreCall, StoreValue, Call, store, context_ended, signal, time_now,
}
use github_runners_infra.Webhook.Failure.{good}
use github_runners_infra.Webhook.Program.{History, event}

-- The key and the closure of a method that runs through `update`, at a reading of the clock.
abbrev pub closure_of : ℕ → StoreCall → Option (Text × (Record → Record))
closure_of now (StoreCall.release_claim key kind) = some (key, on_release_claim kind)
closure_of now (StoreCall.defer_provisioning_demand key message retry_at) =
    some (key, on_defer_provisioning_demand message retry_at)
closure_of now (StoreCall.defer_rate_limited_work key kind message retry_at max_attempts) =
    some (key, on_defer_rate_limited_work kind message retry_at max_attempts)
closure_of now (StoreCall.clear_jit key) = some (key, on_clear_jit)
closure_of now (StoreCall.mark_provisioned key instance_id runner_id runner_name) =
    some (key, on_mark_provisioned now instance_id runner_id runner_name)
closure_of now (StoreCall.mark_provision_failed key message retry_at max_attempts) =
    some (key, on_mark_provision_failed message retry_at max_attempts)
closure_of now (StoreCall.mark_completed key) = some (key, on_mark_completed)
closure_of now (StoreCall.schedule_deletion key) = some (key, on_schedule_deletion)
closure_of now (StoreCall.mark_deleted key) = some (key, on_mark_deleted)
closure_of now (StoreCall.finish_deleted_runner key queued) =
    some (key, λ r. (on_finish_deleted_runner queued r).0)
closure_of now (StoreCall.defer_reassignment_demand key message retry_at) =
    some (key, on_defer_reassignment_demand message retry_at)
closure_of now (StoreCall.defer_deletion_confirmation key message retry_at) =
    some (key, on_defer_deletion_confirmation message retry_at)
closure_of now (StoreCall.mark_delete_failed key message retry_at max_attempts) =
    some (key, on_mark_delete_failed message retry_at max_attempts)
closure_of now (StoreCall.mark_orphaned key message) = some (key, on_mark_orphaned message)
closure_of now (StoreCall.release_absent_orphan key instance_id) =
    some (key, on_release_absent_orphan instance_id)
closure_of now (StoreCall.clear_provider_missing key) = some (key, on_clear_provider_missing)
closure_of now (StoreCall.clear_github_missing key) = some (key, on_clear_github_missing)
closure_of now (StoreCall.record_runner_seen key) = some (key, on_record_runner_seen now now)
closure_of now (StoreCall.clear_runner_missing key) = some (key, on_clear_runner_missing now)
closure_of now (StoreCall.defer_reconciliation key message retry_at max_attempts failure throttle) =
    some (key, on_defer_reconciliation message retry_at max_attempts failure throttle)
closure_of now (StoreCall.defer_rate_limited_cleanup key message retry_at max_attempts throttle) =
    some (key, on_defer_rate_limited_cleanup message retry_at max_attempts throttle)
closure_of now (StoreCall.defer_orphan_cleanup key message retry_at) =
    some (key, on_defer_orphan_cleanup message retry_at)
closure_of now (StoreCall.requeue_missing_runner key max_attempts) =
    some (key, on_requeue_missing_runner max_attempts)
closure_of now _ = none

-- The closure ends the claim of any record that is claimed for this work and is not terminal.
abbrev pub Frees : WorkKind → (Record → Record) → Type 0
Frees kind f =
    (r : Record)
    → r.claimed_work ≡ kind
    → is_terminal r.status ≡ false
    → (f r).claimed_work ≡ no_work

abbrev FreesAt : Text → WorkKind → Option (Text × (Record → Record)) → Type 0
FreesAt key kind none = ⊥
FreesAt key kind (some (k, f)) = (k ≡ key) × Frees kind f

-- A call of the store that ends the claim of the record at the key, whenever it is made.
abbrev pub Releases : Text → WorkKind → Call → Type 0
Releases key kind (store c) = (now : ℕ) → FreesAt key kind (closure_of now c)
Releases key kind _ = ⊥

-- The context was asked before the clock was read, and has not ended.
abbrev pub Asked : History → Type 0
Asked past = (earlier : History) × (past ≡ event context_ended false ∷ earlier)

-- Where no more is tried after the call has failed. There is a fallback for `MarkProvisioned`,
-- `MarkDeleted` and `FinishDeletedRunner`, and for a `MarkDeleteFailed` in their place.
abbrev pub IsLastResort : History → StoreCall → Type 0
IsLastResort past (StoreCall.mark_provisioned _ _ _ _) = ⊥
IsLastResort past (StoreCall.mark_deleted _) = ⊥
IsLastResort past (StoreCall.finish_deleted_runner _ _) = ⊥
IsLastResort past (StoreCall.mark_delete_failed _ _ _ _) =
    (now : ℕ) × (earlier : History) × (past ≡ event time_now now ∷ earlier) × Asked earlier
IsLastResort past _ = Unit {0}

-- But for signals to the workers and a `ScheduleDeletion` that succeeded, the last call was one of the
-- store that ends the claim: it succeeded, or it was the last resort.
pub data Ends (key : Text) (kind : WorkKind) : History → Type 0 where
  freed :
      {c : StoreCall} {a : StoreValue c} {past : History}
      → Releases key kind (store c)
      → Ends key kind (event (store c) (good a) ∷ past)
  tried :
      {c : StoreCall} {a : Answer (store c)} {past : History}
      → Releases key kind (store c)
      → IsLastResort past c
      → Ends key kind (event (store c) a ∷ past)
  scheduled :
      {a : Unit {0}} {past : History}
      → Ends key kind past
      → Ends key kind (event (store (StoreCall.schedule_deletion key)) (good a) ∷ past)
  signalled :
      {a : Unit {0}} {past : History} → Ends key kind past → Ends key kind (event signal a ∷ past)
