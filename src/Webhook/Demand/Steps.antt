-- ===== src/Webhook/Demand/Steps.antt =====
-- internal/webhook/handler.go, `requireQueuedJob`: it confirms the demand, or ends the claim.
use github_runners_infra.Prelude.{Bool, true, false, Option, none, some, ◌≡◌, refl, ◌∷◌, is_empty}
use github_runners_infra.Record.{Record, work_provision}
use github_runners_infra.Webhook.Failure.{Failure, good, bad, failed}
use github_runners_infra.Webhook.Calls.{
  Call, StoreCall, store, workflow_job_status, job_queued, job_in_progress, job_completed, signal,
}
use github_runners_infra.Program.{done, ◌>>◌}
use github_runners_infra.Webhook.Program.{Prog, call, History, event}
use github_runners_infra.Program.Rules.{Ensures, Ensures-if, Ensures-bind}
use github_runners_infra.Webhook.Handler.{Handler}
use github_runners_infra.Webhook.Stored.{Ends, freed, scheduled, signalled}
use github_runners_infra.Webhook.Stored.Frees.{
  on_release_claim-Frees_provision, on_mark_deleted-Frees,
}
use github_runners_infra.Webhook.Retreat.{remove_idle_jit}
use github_runners_infra.Webhook.Retreat.Steps.{IsModest, Always, remove_idle_jit-Ensures}
use github_runners_infra.Webhook.Demand.{
  provision_failed, defer_demand_check, retire_instance, retire_provisioning, after_retirement,
  retire_demand, without_demand, require_queued_status, require_demand, require_queued_job,
}
use github_runners_infra.Webhook.Demand.Failing.{
  Ended, provision_failed-Ensures, defer_demand_check-Ensures,
}

-- What the last two calls of `requireQueuedJob` showed, if it answers true.
abbrev pub Confirmed : Record → History → History → Type 0
Confirmed r start past =
    (current : Record) × (current.job_completed ≡ false)
    × (past
        ≡ event (workflow_job_status r.owner r.repository r.job_id) (good job_queued)
          ∷ event (store (StoreCall.get_record r.key)) (good (some current))
          ∷ start)

-- The demand is confirmed, or the claim is ended.
abbrev pub Checked : Record → History → History → Bool → Type 0
Checked r start past true = Confirmed r start past
Checked r start past false = Ends r.key work_provision past

module _ (P : History → Call → Type 0)
    (modest : (past : History) (c : Call) → IsModest c → P past c) (h : Handler) (r : Record) where
  -- Without an error, `retireProvisioning` has ended the claim.
  abbrev Retired : History → Option Failure → Type 0
  Retired past none = Ends r.key work_provision past
  Retired past (some e) = Unit {0}

  retire_instance-Ensures : (past : History) → Ensures P Retired past (retire_instance r.key)
  unfolding retire_instance
  retire_instance-Ensures past = (
    modest past _ tt,
    elim [
      | bad e ↦ tt
      | good s ↦ (
        modest _ _ tt,
        elim [
          | bad e ↦ tt
          | good t ↦ (
            modest _ _ tt,
            unfold failed in
                elim [
                  | bad e ↦ tt
                  | good u ↦ scheduled (
                      freed {c = StoreCall.release_claim r.key work_provision}
                        (λ now. (refl, on_release_claim-Frees_provision)))
                ],
          )
        ],
      )
    ],
  )

  retire_provisioning-Ensures :
      (past : History) → Ensures P Retired past (retire_provisioning r.key)
  unfolding retire_provisioning
  retire_provisioning-Ensures past = (
    modest past _ tt,
    elim [
      | bad e ↦ tt
      | good none ↦ tt
      | good (some current) ↦
          Ensures-if P Retired _ (is_empty current.instance_id) _ _
            (λ _. (
              modest _ _ tt,
              unfold failed in
                  elim [
                    | bad e ↦ tt
                    | good u ↦
                        freed {c = StoreCall.mark_deleted r.key}
                          (λ now. (refl, on_mark_deleted-Frees))
                  ],
            ))
            (λ _. retire_instance-Ensures _)
    ],
  )

  module _ (start : History) (describe : Failure → Failure) (otherwise : Prog (Unit {0}))
      (quiet : (past : History)
        → Ensures P (λ later _. Ended r past tt → Ended r later tt) past otherwise) where
    after_retirement-Ensures :
        (past : History) (o : Option Failure)
        → Retired past o
        → Ensures P (Checked r start) past (after_retirement h r describe otherwise o)
    unfolding after_retirement
    after_retirement-Ensures past none made =
        Ensures-bind P (λ later _. Ended r past tt → Ended r later tt) (Checked r start) past
          otherwise _ (quiet past) (λ later _ keeps. keeps made)
    after_retirement-Ensures past (some e) made =
        Ensures-bind P (Ended r) (Checked r start) past (provision_failed h r (describe e)) _
          (provision_failed-Ensures P modest h r (describe e) past) (λ later _ ended. ended)

    retire_demand-Ensures :
        (past : History) (o : Option Failure)
        → Ensures P (Checked r start) past (retire_demand h r describe otherwise o)
    unfolding retire_demand
    retire_demand-Ensures past (some e) =
        Ensures-bind P (Ended r) (Checked r start) past (defer_demand_check h r e) _
          (defer_demand_check-Ensures P modest h r e past) (λ later _ ended. ended)
    retire_demand-Ensures past none =
        Ensures-bind P Retired (Checked r start) past (retire_provisioning r.key) _
          (retire_provisioning-Ensures past) after_retirement-Ensures

    without_demand-Ensures :
        (past : History) → Ensures P (Checked r start) past (without_demand h r describe otherwise)
    unfolding without_demand
    without_demand-Ensures past =
        Ensures-bind P Always (Checked r start) past (remove_idle_jit r) _
          (remove_idle_jit-Ensures P modest r past) (λ later o _. retire_demand-Ensures later o)

  -- A check that could not be made ends the claim.
  deferred-Ensures :
      (start : History) (e : Failure) (past : History)
      → Ensures P (Checked r start) past (defer_demand_check h r e >> done false)
  deferred-Ensures start e past =
      Ensures-bind P (Ended r) (Checked r start) past (defer_demand_check h r e) _
        (defer_demand_check-Ensures P modest h r e past) (λ later _ ended. ended)

  require_queued_status-Ensures :
      (start : History) (current : Record)
      → current.job_completed ≡ false
      → Ensures P
          (Checked r start)
          (event (store (StoreCall.get_record r.key)) (good (some current)) ∷ start)
          (require_queued_status h r)
  unfolding require_queued_status
  require_queued_status-Ensures start current open_demand = (
    modest _ _ tt,
    elim [
      | bad e ↦ deferred-Ensures start _ _
      | good job_queued ↦ (current, open_demand, refl)
      | good job_in_progress ↦
          without_demand-Ensures start _ (call signal)
            (λ past. (modest past _ tt, λ s made. signalled made)) _
      | good job_completed ↦
          without_demand-Ensures start _ (call signal)
            (λ past. (modest past _ tt, λ s made. signalled made)) _
    ],
  )

  require_demand-Ensures :
      (start : History) (current : Record)
      → Ensures P
          (Checked r start)
          (event (store (StoreCall.get_record r.key)) (good (some current)) ∷ start)
          (require_demand h r current)
  unfolding require_demand
  require_demand-Ensures start current =
      Ensures-if P (Checked r start) _ current.job_completed _ _
        (λ _. without_demand-Ensures start _ (done tt) (λ past made. made) _)
        (require_queued_status-Ensures start current)

  -- `requireQueuedJob` confirms the demand, or ends the claim.
  pub require_queued_job-Ensures :
      (start : History) → Ensures P (Checked r start) start (require_queued_job h r)
  unfolding require_queued_job
  require_queued_job-Ensures start = (
    modest start _ tt,
    elim [
      | bad e ↦ deferred-Ensures start _ _
      | good none ↦ deferred-Ensures start _ _
      | good (some current) ↦ require_demand-Ensures start current
    ],
  )
