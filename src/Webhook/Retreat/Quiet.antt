-- ===== src/Webhook/Retreat/Quiet.antt =====
-- internal/webhook/handler.go: the calls of `deferReconciliation` and `markOrphaned`, for conditions
-- that allow little else.
use github_runners_infra.Prelude.{ℕ, pos, Option, none, some}
use github_runners_infra.Record.{Record}
use github_runners_infra.Webhook.Failure.{Failure, good, bad}
use github_runners_infra.Webhook.Calls.{Call, StoreCall, store, remove_repo_runner, time_now}
use github_runners_infra.Webhook.Program.{History}
use github_runners_infra.Program.Rules.{Ensures, Ensures-bind, Ensures-if}
use github_runners_infra.Webhook.Delays.{retry_delay}
use github_runners_infra.Webhook.Handler.{Handler, owns_registration}
use github_runners_infra.Webhook.Retreat.{
  throttle_retry_at, in_time, retry_after, retry_time, deregister_orphan, mark_orphaned,
  defer_reconciliation,
}
use github_runners_infra.Webhook.Retreat.Steps.{Always}

-- A call that only gives up a registration, postpones work or sets a record aside.
abbrev pub IsQuiet : Call → Type 0
IsQuiet (remove_repo_runner _ _ _) = Unit {0}
IsQuiet time_now = Unit {0}
IsQuiet (store (StoreCall.clear_jit _)) = Unit {0}
IsQuiet (store (StoreCall.mark_orphaned _ _)) = Unit {0}
IsQuiet (store (StoreCall.defer_reconciliation _ _ _ _ _ _)) = Unit {0}
IsQuiet _ = ⊥

-- A condition on calls that quiet ones always meet.
module _ (P : History → Call → Type 0)
    (quiet : (past : History) (c : Call) → IsQuiet c → P past c) where
  pub in_time-Ensures : (delay : ℕ) (past : History) → Ensures P Always past (in_time delay)
  unfolding in_time
  in_time-Ensures delay past = (quiet past _ tt, λ now. tt)

  pub throttle_retry_at-Ensures :
      (reset_at : ℕ) (past : History) → Ensures P Always past (throttle_retry_at reset_at)
  unfolding throttle_retry_at
  throttle_retry_at-Ensures reset_at past = (quiet past _ tt, λ now. tt)

  pub retry_after-Ensures :
      (attempt : ℕ) (past : History) → Ensures P Always past (retry_after attempt)
  unfolding retry_after
  retry_after-Ensures attempt past = in_time-Ensures (retry_delay (pos attempt)) past

  retry_time-Ensures :
      (limit : Option ℕ) (attempt : ℕ) (past : History)
      → Ensures P Always past (retry_time limit (retry_after attempt))
  unfolding retry_time
  retry_time-Ensures none attempt past = retry_after-Ensures attempt past
  retry_time-Ensures (some reset_at) attempt past = throttle_retry_at-Ensures reset_at past

  pub defer_reconciliation-Ensures :
      (h : Handler) (r : Record) (e : Failure) (past : History)
      → Ensures P Always past (defer_reconciliation h r e)
  unfolding defer_reconciliation
  defer_reconciliation-Ensures h r e past =
      Ensures-bind P Always Always past _ _ (retry_time-Ensures e.rate_limit _ past)
        (λ later at _. (quiet later _ tt, elim [ good _ ↦ tt | bad _ ↦ tt ]))

  deregister_orphan-Ensures :
      (r : Record) (past : History) → Ensures P Always past (deregister_orphan r)
  unfolding deregister_orphan
  deregister_orphan-Ensures r past =
      Ensures-if P Always past (owns_registration r) _ _
        (λ _. (
          quiet past _ tt,
          elim [ bad e ↦ tt | good _ ↦ (quiet _ _ tt, elim [ bad e ↦ tt | good _ ↦ tt ]) ],
        ))
        (λ _. tt)

  pub mark_orphaned-Ensures :
      (r : Record) (cause : Failure) (past : History)
      → Ensures P Always past (mark_orphaned r cause)
  unfolding mark_orphaned
  mark_orphaned-Ensures r cause past =
      Ensures-bind P Always Always past _ _ (deregister_orphan-Ensures r past)
        (λ later cleanup _. (quiet later _ tt, λ stored. tt))
