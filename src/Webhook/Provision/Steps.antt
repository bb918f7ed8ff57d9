-- ===== src/Webhook/Provision/Steps.antt =====
-- internal/webhook/handler.go, `provision`: what came before an instance is made or removed, and how
-- the claim of the provision ends.
use github_runners_infra.Prelude.{
  ==_iff, true, false, none, some, Text, ◌≡◌, ◌⊎◌, inl, inr, refl, ◌∷◌, ◌==◌,
}
use github_runners_infra.Record.{Record}
use github_runners_infra.Webhook.Failure.{good, bad}
use github_runners_infra.Webhook.Calls.{
  Call, StoreCall, store, JitConfig, RunnerInstance, RunnerParams, find_runner, create_runner,
  delete_runner, remove_repo_runner, generate_jit_config,
}
use github_runners_infra.Webhook.Program.{History, event}
use github_runners_infra.Program.Rules.{Ensures, Ensures-if, Ensures-bind}
use github_runners_infra.Webhook.Handler.{Handler, owns_registration}
use github_runners_infra.Webhook.Stored.Frees.{on_mark_provisioned-Frees}
use github_runners_infra.Webhook.Retreat.Steps.{IsModest}
use github_runners_infra.Webhook.Demand.{provision_failed, require_queued_job}
use github_runners_infra.Webhook.Stored.{freed, signalled}
use github_runners_infra.Webhook.Demand.Failing.{Ended, provision_failed-Ensures}
use github_runners_infra.Webhook.Demand.Steps.{Confirmed, Checked, require_queued_job-Ensures}
use github_runners_infra.Webhook.Provision.{
  name_of_runner, with_jit, params, create_instance, confirm_demand, register, replace_registration,
  adopt, provision_new, provision,
}

-- A registration that the record owned was removed at GitHub and then from the record.
abbrev pub Cleared : Record → History → History → Type 0
Cleared r before after =
    ((owns_registration r ≡ false) × (after ≡ before))
    ⊎ ((owns_registration r ≡ true)
        × (after
            ≡ event (store (StoreCall.clear_jit r.key)) (good tt)
              ∷ event (remove_repo_runner r.owner r.repository r.github_runner_id) (good tt)
              ∷ before))

-- All that precedes the creation of an instance, after `start`: the provider has no instance, the
-- demand is confirmed, an old registration is gone, a new one is made and recorded, and the demand
-- is confirmed once more. The instance gets that registration.
abbrev pub IsReady : Handler → Record → History → History → RunnerParams → Type 0
IsReady h r start past p =
    (jit : JitConfig) × (queued : History) × (cleared : History) × (p ≡ params h r jit)
    × Confirmed r (event (find_runner r.key) (good none) ∷ start) queued
    × Cleared r queued cleared
    × Confirmed r
        (event (store (StoreCall.mark_jit_created r.key jit.runner_id (name_of_runner h r)))
            (good tt)
          ∷ event
              (generate_jit_config r.owner r.repository (name_of_runner h r)
                h.limits.runner_group_id r.labels)
              (good jit)
          ∷ cleared)
        past

-- An instance is removed that the provider has just shown, if the record knows no registration.
abbrev pub IsStray : Record → History → History → Text → Text → Type 0
IsStray r start past instance_id key =
    (existing : RunnerInstance) × (r.github_runner_id ≡ 0)
    × (instance_id ≡ existing.id)
    × (key ≡ r.key)
    × (past ≡ event (find_runner r.key) (good (some existing)) ∷ start)

-- When `provision` may make its calls.
abbrev pub IsOrderly : Handler → Record → History → History → Call → Type 0
IsOrderly h r start past (create_runner p) = IsReady h r start past p
IsOrderly h r start past (delete_runner instance_id key) = IsStray r start past instance_id key
IsOrderly h r start past (store (StoreCall.finish_deleted_runner _ _)) = ⊥
IsOrderly h r start past _ = Unit {0}

modest-IsOrderly :
    (h : Handler) (r : Record) (start past : History) (c : Call)
    → IsModest c
    → IsOrderly h r start past c
modest-IsOrderly h r start past (create_runner p) m = absurd m
modest-IsOrderly h r start past (delete_runner i k) m = absurd m
modest-IsOrderly h r start past (store (StoreCall.finish_deleted_runner k q)) m = m
modest-IsOrderly h r start past _ m = tt

module _ (h : Handler) (r : Record) (start : History) where
  abbrev P : History → Call → Type 0
  P = IsOrderly h r start

  failed-Ensures :
      (r' : Record) (e : _) (past : History) → Ensures P (Ended r') past (provision_failed h r' e)
  failed-Ensures r' e past = provision_failed-Ensures P (modest-IsOrderly h r start) h r' e past

  create_instance-Ensures :
      (jit : JitConfig) (past : History)
      → IsReady h r start past (params h r jit)
      → Ensures P (Ended r) past (create_instance h r jit)
  unfolding create_instance
  create_instance-Ensures jit past ready = (
    ready,
    elim [
      | bad e ↦ failed-Ensures (with_jit h r jit) _ _
      | good made ↦ (
        tt,
        elim [
          | bad e ↦ failed-Ensures (with_jit h r jit) _ _
          | good _ ↦ (
            tt,
            λ s. signalled (
                freed (λ now. (
                  refl,
                  on_mark_provisioned-Frees now made.id jit.runner_id (name_of_runner h r),
                ))),
          )
        ],
      )
    ],
  )

  confirm_demand-Ensures :
      (jit : JitConfig) (queued cleared : History)
      → Confirmed r (event (find_runner r.key) (good none) ∷ start) queued
      → Cleared r queued cleared
      → Ensures P
          (Ended r)
          (event
              (store (StoreCall.mark_jit_created r.key jit.runner_id (name_of_runner h r)))
              (good tt)
            ∷ event
                (generate_jit_config r.owner r.repository
                  (name_of_runner h r)
                  h.limits.runner_group_id
                  r.labels)
                (good jit)
            ∷ cleared)
          (confirm_demand h r jit)
  unfolding confirm_demand
  confirm_demand-Ensures jit queued cleared first old =
      Ensures-bind P (Checked (with_jit h r jit) _) (Ended r) _
        (require_queued_job h (with_jit h r jit)) _
        (require_queued_job-Ensures P (modest-IsOrderly h r start) h (with_jit h r jit) _)
        (λ later. elim [
          | true ↦ λ again.
              create_instance-Ensures jit later (jit, queued, cleared, refl, first, old, again)
          | false ↦ λ ended. ended
        ])

  register-Ensures :
      (queued cleared : History)
      → Confirmed r (event (find_runner r.key) (good none) ∷ start) queued
      → Cleared r queued cleared
      → Ensures P (Ended r) cleared (register h r)
  unfolding register
  register-Ensures queued cleared first old = (
    tt,
    elim [
      | bad e ↦ failed-Ensures r _ _
      | good jit ↦ (
        tt,
        elim [
          | bad e ↦ (tt, λ removed. failed-Ensures r _ _)
          | good tt ↦ confirm_demand-Ensures jit queued cleared first old
        ],
      )
    ],
  )

  replace_registration-Ensures :
      (queued : History)
      → Confirmed r (event (find_runner r.key) (good none) ∷ start) queued
      → Ensures P (Ended r) queued (replace_registration h r)
  unfolding replace_registration
  replace_registration-Ensures queued first =
      Ensures-if P (Ended r) queued (owns_registration r) _ _
        (λ owned. (
          tt,
          elim [
            | bad e ↦ failed-Ensures r _ _
            | good tt ↦ (
              tt,
              elim [
                | bad e ↦ failed-Ensures r _ _
                | good tt ↦ register-Ensures queued _ first (inr (owned, refl))
              ],
            )
          ],
        ))
        (λ unowned. register-Ensures queued queued first (inl (unowned, refl)))

  adopt-Ensures :
      (existing : RunnerInstance)
      → Ensures P
          (Ended r)
          (event (find_runner r.key) (good (some existing)) ∷ start)
          (adopt h r existing)
  unfolding adopt
  adopt-Ensures existing =
      Ensures-if P (Ended r) _ (r.github_runner_id == 0) _ _
        (λ unknown. (
          (existing, (==_iff r.github_runner_id 0).0 unknown, refl, refl, refl),
          λ deleted. failed-Ensures r _ _,
        ))
        (λ known. (
          tt,
          elim [
            | bad e ↦
                Ensures-bind P (Ended r) (Ended r) _ (provision_failed h r _) _
                  (failed-Ensures r _ _) (λ later _ ended. (tt, λ s. signalled ended))
            | good _ ↦ (
              tt,
              λ s. signalled (
                  freed (λ now. (
                    refl,
                    on_mark_provisioned-Frees now existing.id r.github_runner_id existing.name,
                  ))),
            )
          ],
        ))

  provision_new-Ensures :
      Ensures P (Ended r) (event (find_runner r.key) (good none) ∷ start) (provision_new h r)
  unfolding provision_new
  provision_new-Ensures =
      Ensures-bind P (Checked r _) (Ended r) _ (require_queued_job h r) _
        (require_queued_job-Ensures P (modest-IsOrderly h r start) h r _)
        (λ later. elim [
          | true ↦ λ first. replace_registration-Ensures later first
          | false ↦ λ ended. ended
        ])

  -- Whatever the answers, `provision` makes and removes instances in order, finishes no record, and
  -- ends its claim.
  pub provision-Ensures : Ensures P (Ended r) start (provision h r)
  unfolding provision
  provision-Ensures = (
    tt,
    elim [
      | bad e ↦ failed-Ensures r _ _
      | good (some existing) ↦ adopt-Ensures existing
      | good none ↦ provision_new-Ensures
    ],
  )
