-- ===== src/Webhook/Retreat/Steps.antt =====
-- internal/webhook/handler.go: the calls of the steps that workers and the reaper share.
use github_runners_infra.Prelude.{ℕ, Option, none, some, Text, refl}
use github_runners_infra.Record.{Record, WorkKind}
use github_runners_infra.Webhook.Failure.{Failure, good, bad, join_maybe}
use github_runners_infra.Webhook.Calls.{
  Call, StoreCall, store, create_runner, delete_runner, generate_jit_config,
}
use github_runners_infra.Webhook.Program.{Prog, History}
use github_runners_infra.Program.Rules.{Ensures, Ensures-if, Ensures-bind}
use github_runners_infra.Webhook.Handler.{owns_registration}
use github_runners_infra.Webhook.Stored.{Ends, tried, Frees}
use github_runners_infra.Record.Deleting.{on_mark_orphaned}
use github_runners_infra.Webhook.Retreat.{
  throttle_retry_at, in_time, retry_after, retry_time, deregister_orphan, mark_orphaned,
  remove_idle_jit,
}

-- A call that makes no resource and ends none: it neither creates or deletes an instance, nor
-- registers a runner, nor finishes a record.
abbrev pub IsModest : Call → Type 0
IsModest (create_runner _) = ⊥
IsModest (delete_runner _ _) = ⊥
IsModest (generate_jit_config _ _ _ _ _) = ⊥
IsModest (store (StoreCall.finish_deleted_runner _ _)) = ⊥
IsModest _ = Unit {0}

abbrev pub Always : {A : Type 0} → History → A → Type 0
Always past a = Unit {0}

-- A condition on calls that modest ones always meet.
module _ (P : History → Call → Type 0)
    (modest : (past : History) (c : Call) → IsModest c → P past c) where
  pub in_time-Ensures : (delay : ℕ) (past : History) → Ensures P Always past (in_time delay)
  unfolding in_time
  in_time-Ensures delay past = (modest past _ tt, λ now. tt)

  pub throttle_retry_at-Ensures :
      (retry_at : ℕ) (past : History) → Ensures P Always past (throttle_retry_at retry_at)
  unfolding throttle_retry_at
  throttle_retry_at-Ensures retry_at past = (modest past _ tt, λ now. tt)

  pub retry_after-Ensures :
      (attempt : ℕ) (past : History) → Ensures P Always past (retry_after attempt)
  unfolding retry_after
  retry_after-Ensures attempt past = (modest past _ tt, λ now. tt)

  pub retry_time-Ensures :
      (limit : Option ℕ) (otherwise : Prog ℕ) (past : History)
      → Ensures P Always past otherwise
      → Ensures P Always past (retry_time limit otherwise)
  unfolding retry_time
  retry_time-Ensures none otherwise past e = e
  retry_time-Ensures (some reset_at) otherwise past e = (modest past _ tt, λ now. tt)

  deregister_orphan-Ensures :
      (r : Record) (past : History) → Ensures P Always past (deregister_orphan r)
  unfolding deregister_orphan
  deregister_orphan-Ensures r past =
      Ensures-if P Always past (owns_registration r) _ _
        (λ _. (
          modest past _ tt,
          elim [ bad e ↦ tt | good _ ↦ (modest _ _ tt, elim [ bad e ↦ tt | good _ ↦ tt ]) ],
        ))
        (λ _. tt)

  -- `markOrphaned` stores that the record is orphaned.
  pub mark_orphaned-Ensures :
      (kind : WorkKind) (r : Record) (cause : Failure)
      → ((message : Text) → Frees kind (on_mark_orphaned message))
      → (past : History) → Ensures P (λ later _. Ends r.key kind later) past (mark_orphaned r cause)
  unfolding mark_orphaned
  mark_orphaned-Ensures kind r cause frees past =
      Ensures-bind P Always (λ later _. Ends r.key kind later) past (deregister_orphan r) _
        (deregister_orphan-Ensures r past)
        (λ later cleanup _. (
          modest later _ tt,
          λ stored. tried (λ now. (refl, frees (join_maybe cause cleanup).message)) tt,
        ))

  pub remove_idle_jit-Ensures :
      (r : Record) (past : History) → Ensures P Always past (remove_idle_jit r)
  unfolding remove_idle_jit
  remove_idle_jit-Ensures r past =
      Ensures-if P Always past (owns_registration r) _ _
        (λ _. (
          modest past _ tt,
          elim [ bad e ↦ tt | good _ ↦ (modest _ _ tt, elim [ bad e ↦ tt | good _ ↦ tt ]) ],
        ))
        (λ _. tt)
