-- ===== src/Webhook/Liveness/Replacement.antt =====
-- internal/webhook/handler.go, `reconcileProvisionedRunner`: every call of it has its cause.
use github_runners_infra.Prelude.{ℕ, true, Option, none, some, [], ◌≡◌, ◌⊎◌, inl, inr, refl}
use github_runners_infra.Record.{Record, is_zero}
use github_runners_infra.Webhook.Failure.{Failure, good, bad}
use github_runners_infra.Webhook.Calls.{
  Call, StoreCall, store, job_queued, job_in_progress, job_completed, find_runner,
  workflow_job_status,
}
use github_runners_infra.Program.{run}
use github_runners_infra.Webhook.Program.{History, Environment, event}
use github_runners_infra.Program.Rules.{Ensures, EveryCall, Ensures-run, Ensures-bind, Ensures-if}
use github_runners_infra.Webhook.Handler.{Handler, owns_registration}
use github_runners_infra.Webhook.Retreat.{remove_idle_jit}
use github_runners_infra.Webhook.Retreat.Steps.{Always}
use github_runners_infra.Webhook.Liveness.{
  is_ahead, schedule_or, job_done, reconcile_provider_found_runner, find_failed, reconcile_now,
  reconciled_lately, reconcile_provisioned_runner,
}
use github_runners_infra.Webhook.Liveness.Causes.{Saw, Keeps, IsRemoved, IsFound, HasCause}
use github_runners_infra.Webhook.Liveness.Missing.{
  deferred-Ensures, reconcile_duplicate_runners-Ensures, reconcile_provider_missing_runner-Ensures,
}
use github_runners_infra.Webhook.Liveness.Registered.{job_open-Ensures}

module _ (h : Handler) (r : Record) where
  abbrev P : History → Call → Type 0
  P = HasCause h r

  -- What `removeIdleJIT` has done where it gives no error.
  Idle : History → History → Option Failure → Type 0
  Idle past later (some e) = Unit {0}
  Idle past later none =
      Keeps past later
      × IsRemoved h r later
      × (owns_registration r ≡ true
          → Saw (event (store (StoreCall.clear_jit r.key)) (good tt)) later)

  remove_idle_jit-Ensures : (past : History) → Ensures P (Idle past) past (remove_idle_jit r)
  unfolding remove_idle_jit Idle
  remove_idle_jit-Ensures past =
      Ensures-if P (Idle past) past (owns_registration r) _ _
        (λ owned. (
          tt,
          elim [
            | bad e ↦ tt
            | good _ ↦ (
              tt,
              elim [
                | bad e ↦ tt
                | good _ ↦ (λ e seen. inr (inr seen), λ _. inr (inl refl), λ _. inl refl)
              ],
            )
          ],
        ))
        (λ free. (λ e seen. seen, λ owned. cc, λ owned. cc))

  schedule_or-Ensures :
      (past later : History) (e : Option Failure)
      → Idle past later e
      → IsFound h r past
      → (r.job_completed ≡ true)
        ⊎ Saw (event (workflow_job_status r.owner r.repository r.job_id) (good job_completed)) past
      → Ensures P Always later (schedule_or h r e)
  unfolding schedule_or Idle
  schedule_or-Ensures past later (some e) idle found over = deferred-Ensures h r e later
  schedule_or-Ensures past later none (keeps, removed, cleared) (i, found) over = (
    (
      refl,
      (i, keeps _ found),
      inl (elim over [ inl c ↦ inl c | inr seen ↦ inr (keeps _ seen) ], removed, cleared),
    ),
    λ stored. tt,
  )

  job_done-Ensures :
      (past : History)
      → IsFound h r past
      → (r.job_completed ≡ true)
        ⊎ Saw (event (workflow_job_status r.owner r.repository r.job_id) (good job_completed)) past
      → Ensures P Always past (job_done h r)
  unfolding job_done
  job_done-Ensures past found over =
      Ensures-bind P (Idle past) Always past _ _ (remove_idle_jit-Ensures past)
        (λ later e idle. schedule_or-Ensures past later e idle found over)

  reconcile_provider_found_runner-Ensures :
      (past : History)
      → IsFound h r past
      → Ensures P Always past (reconcile_provider_found_runner h r)
  unfolding reconcile_provider_found_runner
  reconcile_provider_found_runner-Ensures past (i, found) =
      Ensures-if P Always past r.job_completed _ _
        (λ over. job_done-Ensures past (i, found) (inl over))
        (λ running. (
          tt,
          elim [
            | bad e ↦ deferred-Ensures h r _ _
            | good job_completed ↦ job_done-Ensures _ (i, inr found) (inr (inl refl))
            | good job_queued ↦ job_open-Ensures h r _ (record {
              found = (i, inr found);
              still_open = (job_queued, running, λ e. cc, inl refl);
            })
            | good job_in_progress ↦ job_open-Ensures h r _ (record {
              found = (i, inr found);
              still_open = (job_in_progress, running, λ e. cc, inl refl);
            })
          ],
        ))

  find_failed-Ensures :
      (e : Failure) (past : History)
      → Saw (event (find_runner r.key) (bad e)) past
      → Ensures P Always past (find_failed h r e)
  unfolding find_failed
  find_failed-Ensures e past seen =
      Ensures-if P Always past e.duplicate_instances _ _
        (λ twice. reconcile_duplicate_runners-Ensures h r past (e, twice, seen))
        (λ _. deferred-Ensures h r _ past)

  reconcile_now-Ensures : (past : History) → Ensures P Always past (reconcile_now h r)
  unfolding reconcile_now
  reconcile_now-Ensures past = (
    tt,
    elim [
      | bad e ↦ find_failed-Ensures e _ (inl refl)
      | good (some i) ↦ reconcile_provider_found_runner-Ensures _ (i, inl refl)
      | good none ↦ reconcile_provider_missing_runner-Ensures h r _ (inl refl)
    ],
  )

  is_ahead-Ensures : (t : ℕ) (past : History) → Ensures P Always past (is_ahead t)
  unfolding is_ahead
  is_ahead-Ensures t past =
      Ensures-if P Always past (is_zero t) _ _ (λ _. tt) (λ _. (tt, λ now. tt))

  reconciled_lately-Ensures : (past : History) → Ensures P Always past (reconciled_lately h r)
  unfolding reconciled_lately
  reconciled_lately-Ensures past =
      Ensures-if P Always past (is_zero r.registered_at) _ _ (λ _. tt) (λ _. (tt, λ now. tt))

  reconcile_provisioned_runner-Ensures :
      (past : History) → Ensures P Always past (reconcile_provisioned_runner h r)
  unfolding reconcile_provisioned_runner
  reconcile_provisioned_runner-Ensures past =
      Ensures-bind P Always Always past _ _ (is_ahead-Ensures r.next_attempt_at past)
        (λ later ahead _.
          Ensures-if P Always later ahead _ _ (λ _. tt)
            (λ _.
              Ensures-bind P Always Always later _ _ (reconciled_lately-Ensures later)
                (λ last lately _.
                  Ensures-if P Always last lately _ _ (λ _. tt) (λ _. reconcile_now-Ensures last))))

-- In every environment, `reconcileProvisionedRunner` queues a replacement for a runner only after an
-- owned registration was removed, and the provider showed no instance and the store confirmed that
-- over time, or several instances were shown and cleaned up, or the instance was deleted. It deletes
-- the instance only if the provider showed one, the job has not completed, GitHub showed the runner
-- offline, it was never online and its time to register is over; it cleans up only after several
-- instances were shown. It schedules a deletion only if an instance was shown and the job has
-- completed and an owned registration was removed and forgotten, or GitHub's lack of the runner was
-- confirmed over time, past the time to register where it was never online. It creates and
-- registers nothing and marks no record deleted.
pub reconcile_provisioned_runner-HasCause :
    (h : Handler) (r : Record) (env : Environment)
    → EveryCall (HasCause h r) (run env [] (reconcile_provisioned_runner h r)).0
reconcile_provisioned_runner-HasCause h r env =
    (Ensures-run (HasCause h r) Always env [] (reconcile_provisioned_runner h r)
      (reconcile_provisioned_runner-Ensures h r []) tt).0
