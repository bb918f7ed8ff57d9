-- ===== src/Webhook/Demand/Failing.antt =====
-- internal/webhook/handler.go, `provisionFailed` and `deferDemandCheck`: they end the claim.
use github_runners_infra.Prelude.{ℕ, Option, none, some, refl, ◌∷◌, leb}
use github_runners_infra.Record.{Record, work_provision}
use github_runners_infra.Webhook.Failure.{Failure, good, bad}
use github_runners_infra.Webhook.Calls.{Call, context_ended}
use github_runners_infra.Program.{done, ◌>>=◌, ◌>>◌}
use github_runners_infra.Webhook.Program.{History, event}
use github_runners_infra.Program.Rules.{Ensures, Ensures-if, Ensures-bind}
use github_runners_infra.Webhook.Handler.{Handler, owns_registration}
use github_runners_infra.Webhook.Stored.{Ends, tried, signalled}
use github_runners_infra.Webhook.Stored.Frees.{
  on_release_claim-Frees_provision, on_defer_provisioning_demand-Frees,
  on_defer_rate_limited_work-Frees_provision, on_mark_provision_failed-Frees,
  on_mark_orphaned-Frees_provision,
}
use github_runners_infra.Webhook.Retreat.{
  in_time, retry_after, retry_time, mark_orphaned, throttle_retry_at,
}
use github_runners_infra.Webhook.Retreat.Steps.{
  IsModest, Always, in_time-Ensures, throttle_retry_at-Ensures, retry_after-Ensures,
  retry_time-Ensures, mark_orphaned-Ensures,
}
use github_runners_infra.Webhook.Demand.{
  fail_provision, deregister_exhausted, exhaust_provision, provision_failed_at, provision_failed,
  defer_demand_check,
}

-- The claim of a provision is ended, or the last try of this failed.
abbrev pub Ended : {A : Type 0} → Record → History → A → Type 0
Ended r past a = Ends r.key work_provision past

module _ (P : History → Call → Type 0)
    (modest : (past : History) (c : Call) → IsModest c → P past c) (h : Handler) (r : Record) where
  fail_provision-Ensures :
      (e : Failure) (past : History) → Ensures P (Ended r) past (fail_provision h r e)
  unfolding fail_provision
  fail_provision-Ensures e past =
      Ensures-bind P Always (Ended r) past (retry_after r.attempts) _
        (retry_after-Ensures P modest r.attempts past)
        (λ later retry_at _. (
          modest later _ tt,
          λ stored. (
            modest _ _ tt,
            λ s. signalled (
                tried
                  (λ now.
                    (refl, on_mark_provision_failed-Frees e.message retry_at h.limits.max_attempts))
                  tt),
          ),
        ))

  deregister_exhausted-Ensures : (past : History) → Ensures P Always past (deregister_exhausted h r)
  unfolding deregister_exhausted
  deregister_exhausted-Ensures past =
      Ensures-if P Always past (owns_registration r) _ _
        (λ _. (modest past _ tt, elim [ bad e ↦ tt | good _ ↦ (modest _ _ tt, λ s. tt) ])) (λ _. tt)

  give_up-Ensures :
      (e : Failure) (past : History)
      → Ensures P (Ended r) past (deregister_exhausted h r >> fail_provision h r e)
  give_up-Ensures e past =
      Ensures-bind P Always (Ended r) past (deregister_exhausted h r) _
        (deregister_exhausted-Ensures past) (λ later _ _. fail_provision-Ensures e later)

  orphan-Ensures :
      (e : Failure) (past : History) → Ensures P (Ended r) past (mark_orphaned r e >>= λ _. done tt)
  orphan-Ensures e past =
      Ensures-bind P (Ended r) (Ended r) past (mark_orphaned r e) _
        (mark_orphaned-Ensures P modest work_provision r e on_mark_orphaned-Frees_provision past)
        (λ later _ made. made)

  exhaust_provision-Ensures :
      (e : Failure) (past : History) → Ensures P (Ended r) past (exhaust_provision h r e)
  unfolding exhaust_provision
  exhaust_provision-Ensures e past = (
    modest past _ tt,
    elim [
      | good s ↦ give_up-Ensures e _
      | bad cleanup ↦
          Ensures-if P (Ended r) _ cleanup.ownership_mismatch _ _ (λ _. orphan-Ensures cleanup _)
            (λ _. give_up-Ensures e _)
    ],
  )

  provision_failed_at-Ensures :
      (limit : Option ℕ) (e : Failure) (past : History)
      → Ensures P (Ended r) past (provision_failed_at h r limit e)
  unfolding provision_failed_at
  provision_failed_at-Ensures (some reset_at) e past =
      Ensures-bind P Always (Ended r) past (throttle_retry_at reset_at) _
        (throttle_retry_at-Ensures P modest reset_at past)
        (λ later retry_at _. (
          modest later _ tt,
          λ stored.
              tried
                (λ now. (
                  refl,
                  on_defer_rate_limited_work-Frees_provision e.message retry_at
                      h.limits.max_attempts,
                ))
                tt,
        ))
  provision_failed_at-Ensures none e past =
      Ensures-if P (Ended r) past e.outcome_unknown _ _ (λ _. orphan-Ensures e past)
        (λ _.
          Ensures-if P (Ended r) past (leb h.limits.max_attempts r.attempts) _ _
            (λ _. exhaust_provision-Ensures e past) (λ _. fail_provision-Ensures e past))

  pub provision_failed-Ensures :
      (e : Failure) (past : History) → Ensures P (Ended r) past (provision_failed h r e)
  unfolding provision_failed
  provision_failed-Ensures e past =
      Ensures-if P (Ended r) past e.canceled _ _
        (λ _.
          (modest past _ tt, λ stored. tried (λ now. (refl, on_release_claim-Frees_provision)) tt))
        (λ _. provision_failed_at-Ensures e.rate_limit e past)

  pub defer_demand_check-Ensures :
      (e : Failure) (past : History) → Ensures P (Ended r) past (defer_demand_check h r e)
  unfolding defer_demand_check
  defer_demand_check-Ensures e past = (
    modest past _ tt,
    λ ended.
        Ensures-if P (Ended r) (event context_ended ended ∷ past) ended _ _
          (λ _. provision_failed-Ensures e _)
          (λ _.
            Ensures-bind P Always (Ended r) _ (in_time _) _ (in_time-Ensures P modest _ _)
              (λ later in_a_minute _.
                Ensures-bind P Always (Ended r) later (retry_time e.rate_limit (done in_a_minute)) _
                  (retry_time-Ensures P modest e.rate_limit (done in_a_minute) later tt)
                  (λ last retry_at _. (
                    modest last _ tt,
                    λ stored. (
                      modest _ _ tt,
                      λ s. signalled (
                          tried
                            (λ now. (refl, on_defer_provisioning_demand-Frees e.message retry_at))
                            tt),
                    ),
                  )))),
  )
