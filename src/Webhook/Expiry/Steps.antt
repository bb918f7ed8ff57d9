-- ===== src/Webhook/Expiry/Steps.antt =====
-- internal/webhook/handler.go, `expireRunner`: every call for an expired record has its cause.
use github_runners_infra.Prelude.{
  ℕ, ◌==◌, ◌||◌, not, true, false, Option, none, some, text_eq, is_empty, [], ◌≡◌, inl, inr, refl,
  arith,
}
use github_runners_infra.Record.{Record}
use github_runners_infra.Webhook.Failure.{Failure, good, bad}
use github_runners_infra.Webhook.Calls.{Call, StoreCall, store, remove_repo_runner, time_now}
use github_runners_infra.Program.{run}
use github_runners_infra.Webhook.Program.{Prog, Environment, History, event}
use github_runners_infra.Program.Rules.{Ensures, EveryCall, Ensures-run, Ensures-bind, Ensures-if}
use github_runners_infra.Webhook.Handler.{Handler, owns_registration}
use github_runners_infra.Webhook.Limits.{minute}
use github_runners_infra.Webhook.Retreat.Steps.{Always}
use github_runners_infra.Webhook.Retreat.Quiet.{
  IsQuiet, in_time-Ensures, throttle_retry_at-Ensures, retry_after-Ensures,
  defer_reconciliation-Ensures, mark_orphaned-Ensures,
}
use github_runners_infra.Webhook.Liveness.Causes.{Saw}
use github_runners_infra.Webhook.Expiry.{
  cleanup_timed_out, cleanup_charged, cleanup_failed_at, untracked_cleanup_failed, as_error,
  clean_untracked, delete_untracked_expired_runner, prepare_deferred_deletion, expire_prepared,
  expire_runner,
}
use github_runners_infra.Webhook.Expiry.Causes.{IsBegun, MayExpire}

module _ (h : Handler) (r : Record) where
  abbrev P : History → Call → Type 0
  P = MayExpire h r

  quiet : (past : History) (c : Call) → IsQuiet c → P past c
  quiet past (remove_repo_runner o n i) q = tt
  quiet past time_now q = tt
  quiet past (store (StoreCall.clear_jit k)) q = tt
  quiet past (store (StoreCall.mark_orphaned k m)) q = tt
  quiet past (store (StoreCall.defer_reconciliation k m a n f t)) q = tt
  quiet past _ q = absurd q

  cleanup_timed_out-Ensures :
      (e : Failure) (past : History) → Ensures P Always past (cleanup_timed_out h r e)
  unfolding cleanup_timed_out
  cleanup_timed_out-Ensures e past =
      Ensures-bind P Always Always past _ _ (in_time-Ensures P quiet minute past)
        (λ later at _. (tt, λ stored. tt))

  cleanup_charged-Ensures :
      (attempt : ℕ) (e : Failure) (past : History)
      → Ensures P Always past (cleanup_charged h r attempt e)
  unfolding cleanup_charged
  cleanup_charged-Ensures attempt e past =
      Ensures-bind P Always Always past _ _ (retry_after-Ensures P quiet attempt past)
        (λ later at _. (tt, λ stored. tt))

  cleanup_failed_at-Ensures :
      (attempt : ℕ) (e : Failure) (limit : Option ℕ) (past : History)
      → Ensures P Always past (cleanup_failed_at h r attempt e limit)
  unfolding cleanup_failed_at
  cleanup_failed_at-Ensures attempt e (some reset_at) past =
      Ensures-bind P Always Always past _ _ (throttle_retry_at-Ensures P quiet reset_at past)
        (λ later at _. (tt, λ stored. tt))
  cleanup_failed_at-Ensures attempt e none past =
      Ensures-if P Always past e.canceled _ _ (λ _. cleanup_timed_out-Ensures e past)
        (λ _. (
          tt,
          λ ended.
              Ensures-if P Always _ ended _ _ (λ _. cleanup_timed_out-Ensures e _)
                (λ _. cleanup_charged-Ensures attempt e _),
        ))

  untracked_cleanup_failed-Ensures :
      (attempt : ℕ) (e : Failure) (past : History)
      → Ensures P Always past (untracked_cleanup_failed h r attempt e)
  unfolding untracked_cleanup_failed
  untracked_cleanup_failed-Ensures attempt e past =
      Ensures-if P Always past e.ownership_mismatch _ _
        (λ _.
          Ensures-bind P Always Always past _ _ (mark_orphaned-Ensures P quiet r e past)
            (λ later stored _. tt))
        (λ _. cleanup_failed_at-Ensures attempt e e.rate_limit past)

  as_error-Ensures :
      (m : Prog Failure) (past : History)
      → Ensures P Always past m
      → Ensures P Always past (as_error h r m)
  unfolding as_error
  as_error-Ensures m past e = Ensures-bind P Always Always past m _ e (λ later x _. tt)

  clean_untracked-Ensures :
      (attempt : ℕ) (past : History)
      → IsBegun h r past
      → Ensures P Always past (clean_untracked h r attempt)
  unfolding clean_untracked
  clean_untracked-Ensures attempt past b = (
    (refl, b),
    elim [
      | bad e ↦ as_error-Ensures _ _ (untracked_cleanup_failed-Ensures attempt _ _)
      | good _ ↦ (
        (
          refl,
          record {
            is_ours = b.is_ours;
            untracked = b.untracked;
            begun = (b.begun.0, inr b.begun.1);
            removed = λ owned. inr (b.removed owned);
          },
          inl refl,
        ),
        λ stored. tt,
      )
    ],
  )

  delete_untracked_expired_runner-Ensures :
      (past : History)
      → text_eq r.provider h.provider ≡ true
      → is_empty r.instance_id ≡ true
      → Ensures P Always past (delete_untracked_expired_runner h r)
  unfolding delete_untracked_expired_runner
  delete_untracked_expired_runner-Ensures past ours empty = (
    tt,
    elim [
      | bad e ↦ tt
      | good (attempt, false) ↦ tt
      | good (attempt, true) ↦
          Ensures-if P Always _ (owns_registration r) _ _
            (λ owned. (
              tt,
              elim [
                | bad e ↦ as_error-Ensures _ _ (untracked_cleanup_failed-Ensures attempt _ _)
                | good _ ↦ clean_untracked-Ensures attempt _ (record {
                  is_ours = ours;
                  untracked = empty;
                  begun = (attempt, inr (inl refl));
                  removed = λ _. inl refl;
                })
              ],
            ))
            (λ free. clean_untracked-Ensures attempt _ (record {
              is_ours = ours;
              untracked = empty;
              begun = (attempt, inl refl);
              removed = λ owned. cc;
            }))
    ],
  )

  -- What `prepareDeferredDeletion` has done where it gives no error.
  Ready : History → Option Failure → Type 0
  Ready past (some e) = Unit {0}
  Ready past none =
      r.defer_deletion ≡ true
      → owns_registration r ≡ true
      → Saw (event (remove_repo_runner r.owner r.repository r.github_runner_id) (good tt)) past
        × Saw (event (store (StoreCall.clear_jit r.key)) (good tt)) past

  prepare_deferred_deletion-Ensures :
      (past : History) → Ensures P Ready past (prepare_deferred_deletion h r)
  unfolding prepare_deferred_deletion Ready
  prepare_deferred_deletion-Ensures past =
      Ensures-if P Ready past
        (not r.defer_deletion || r.github_runner_id == 0 || not r.github_runner_owned) _ _
        (λ skipped deferred owned. absurd (ground arith))
        (λ _. (
          tt,
          elim [
            | bad e ↦ tt
            | good _ ↦
                (tt, elim [ bad e ↦ tt | good _ ↦ λ deferred owned. (inr (inl refl), inl refl) ])
          ],
        ))

  expire_prepared-Ensures :
      (past : History) (e : Option Failure)
      → Ready past e
      → text_eq r.provider h.provider ≡ true
      → is_empty r.instance_id ≡ false
      → Ensures P Always past (expire_prepared h r e)
  unfolding expire_prepared Ready
  expire_prepared-Ensures past (some e) ready ours tracked =
      as_error-Ensures _ past (defer_reconciliation-Ensures P quiet h r e past)
  expire_prepared-Ensures past none ready ours tracked = (
    (
      refl,
      record {
        is_ours = ours;
        tracked = tracked;
        removed = λ deferred owned. (ready deferred owned).0;
        forgotten = λ deferred owned. (ready deferred owned).1;
      },
    ),
    λ stored. tt,
  )

  expire_runner-Ensures : (past : History) → Ensures P Always past (expire_runner h r)
  unfolding expire_runner
  expire_runner-Ensures past =
      Ensures-if P Always past (not (text_eq r.provider h.provider)) _ _
        (λ _.
          Ensures-bind P Always Always past _ _ (mark_orphaned-Ensures P quiet r _ past)
            (λ later stored _. tt))
        (λ ours.
          Ensures-if P Always past (is_empty r.instance_id) _ _
            (λ empty. delete_untracked_expired_runner-Ensures past (ground arith) empty)
            (λ tracked.
              Ensures-bind P Ready Always past _ _ (prepare_deferred_deletion-Ensures past)
                (λ later e ready. expire_prepared-Ensures later e ready (ground arith) tracked)))

-- In every environment, `expireRunner` asks for a clean-up only for a record of this provider
-- without an instance, for which the store began an attempt and an owned registration was
-- removed, and marks it deleted only if a clean-up succeeded besides. It schedules a deletion
-- only for a record of this provider with an instance, after an owned registration was removed
-- and forgotten if the deletion was deferred. It creates, registers and requeues nothing, and
-- calls neither `DeleteRunner` nor `FinishDeletedRunner`.
pub expire_runner-MayExpire :
    (h : Handler) (r : Record) (env : Environment)
    → EveryCall (MayExpire h r) (run env [] (expire_runner h r)).0
expire_runner-MayExpire h r env =
    (Ensures-run (MayExpire h r) Always env [] (expire_runner h r) (expire_runner-Ensures h r [])
      tt).0
