-- ===== src/Webhook/Expiry/Causes.antt =====
-- internal/webhook/handler.go, `expireRunner`: what must have been done before an expired record is
-- given up.
use github_runners_infra.Prelude.{ℕ, true, false, text_eq, is_empty, ◌≡◌}
use github_runners_infra.Record.{Record}
use github_runners_infra.Webhook.Failure.{good}
use github_runners_infra.Webhook.Calls.{
  Call, StoreCall, store, cleanup_runner, create_runner, delete_runner, generate_jit_config,
}
use github_runners_infra.Webhook.Program.{History, event}
use github_runners_infra.Webhook.Handler.{Handler, owns_registration}
use github_runners_infra.Webhook.Liveness.Causes.{Saw, IsRemoved}

module _ (h : Handler) (r : Record) where
  -- The record is this controller's and has no instance, and the store has begun an attempt to clean
  -- up for it; an owned registration was removed.
  pub record IsBegun (past : History) : Type 0 where
    pub is_ours : text_eq r.provider h.provider ≡ true
    pub untracked : is_empty r.instance_id ≡ true
    pub begun :
        (attempt : ℕ) × Saw
          (event
            (store (StoreCall.begin_cleanup_attempt r.key h.limits.max_attempts))
            (good (attempt, true)))
          past
    pub removed : IsRemoved h r past

  -- The record is this controller's and has an instance; if its deletion was deferred, an owned
  -- registration was removed and forgotten.
  pub record IsPrepared (past : History) : Type 0 where
    pub is_ours : text_eq r.provider h.provider ≡ true
    pub tracked : is_empty r.instance_id ≡ false
    pub removed : r.defer_deletion ≡ true → IsRemoved h r past
    pub forgotten :
        r.defer_deletion ≡ true
        → owns_registration r ≡ true
        → Saw (event (store (StoreCall.clear_jit r.key)) (good tt)) past

  -- When the reaper may make its calls for an expired record.
  abbrev pub MayExpire : History → Call → Type 0
  MayExpire past (create_runner _) = ⊥
  MayExpire past (generate_jit_config _ _ _ _ _) = ⊥
  MayExpire past (delete_runner _ _) = ⊥
  MayExpire past (cleanup_runner key) = (key ≡ r.key) × IsBegun past
  MayExpire past (store (StoreCall.mark_deleted key)) =
      (key ≡ r.key) × IsBegun past × Saw (event (cleanup_runner r.key) (good tt)) past
  MayExpire past (store (StoreCall.schedule_deletion key)) = (key ≡ r.key) × IsPrepared past
  MayExpire past (store (StoreCall.finish_deleted_runner _ _)) = ⊥
  MayExpire past (store (StoreCall.requeue_missing_runner _ _)) = ⊥
  MayExpire past _ = Unit {0}
