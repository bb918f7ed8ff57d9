-- ===== src/Webhook/Liveness/Missing.antt =====
-- internal/webhook/handler.go: the calls of the reaper for a runner whose instance is gone, is there
-- more than once, or never registered.
use github_runners_infra.Prelude.{
  ◌==◌, Bool, true, false, none, Text, codes, ◌∷◌, ◌≡◌, ◌⊎◌, inl, inr, refl, arith,
}
use github_runners_infra.Record.{Record, is_zero}
use github_runners_infra.Webhook.Failure.{Failure, Outcome, good, bad}
use github_runners_infra.Webhook.Calls.{
  Call, StoreCall, store, runner_offline, find_runner, delete_runner, remove_repo_runner,
  repo_runner_status, time_now,
}
use github_runners_infra.Webhook.Program.{Prog, History, event}
use github_runners_infra.Program.Rules.{Ensures, Ensures-bind, Ensures-if}
use github_runners_infra.Webhook.Handler.{Handler, owns_registration}
use github_runners_infra.Webhook.Retreat.Quiet.{IsQuiet, defer_reconciliation-Ensures}
use github_runners_infra.Webhook.Retreat.Steps.{Always}
use github_runners_infra.Webhook.Liveness.{
  deferred, requeue, after_removal, requeue_unregistered_runner, reconcile_duplicate_runners,
  observe_missing, reconcile_provider_missing_runner, schedule_missing, within_startup,
  reconcile_github_missing_runner,
}
use github_runners_infra.Webhook.Liveness.Causes.{
  Saw, Keeps, IsRemoved, IsFound, IsDuplicated, IsLate, IsOpen, IsUnregistered, IsReplaceable,
  HasCause,
}

module _ (h : Handler) (r : Record) where
  abbrev P : History → Call → Type 0
  P = HasCause h r

  quiet : (past : History) (c : Call) → IsQuiet c → P past c
  quiet past (remove_repo_runner o n i) q = tt
  quiet past time_now q = tt
  quiet past (store (StoreCall.clear_jit k)) q = tt
  quiet past (store (StoreCall.mark_orphaned k m)) q = tt
  quiet past (store (StoreCall.defer_reconciliation k m a n f t)) q = tt
  quiet past _ q = absurd q

  pub deferred-Ensures : (e : Failure) (past : History) → Ensures P Always past (deferred h r e)
  unfolding deferred
  deferred-Ensures e past =
      Ensures-bind P Always Always past _ _ (defer_reconciliation-Ensures P quiet h r e past)
        (λ later c _. tt)

  requeue-Ensures :
      (prefix : Text) (past : History)
      → IsReplaceable h r past
      → Ensures P Always past (requeue h r prefix)
  unfolding requeue
  requeue-Ensures prefix past cause = ((refl, cause), λ stored. tt)

  after_removal-Ensures :
      (prefix : Text) (next : Prog (Outcome Bool)) (past : History)
      → ((later : History) → Keeps past later → IsRemoved h r later → Ensures P Always later next)
      → Ensures P Always past (after_removal h r prefix next)
  unfolding after_removal
  after_removal-Ensures prefix next past go =
      Ensures-if P Always past (owns_registration r) _ _
        (λ owned. (
          tt,
          elim [
            | bad e ↦ deferred-Ensures _ _
            | good _ ↦ go _ (λ e seen. inr seen) (λ _. inl refl)
          ],
        ))
        (λ free. go past (λ e seen. seen) (λ owned. cc))

  pub requeue_unregistered_runner-Ensures :
      (past : History)
      → IsFound h r past
      → IsOpen h r past
      → IsLate h r past
      → Saw
          (event (repo_runner_status r.owner r.repository r.github_runner_id) (good runner_offline))
          past
      → Ensures P Always past (requeue_unregistered_runner h r)
  unfolding requeue_unregistered_runner
  requeue_unregistered_runner-Ensures past (i, found) (s, o, n, seen) (z, (now, t, late)) off =
      after_removal-Ensures _ _ past (λ later keeps removed. (
        (
          refl,
          refl,
          (
            removed,
            (i, keeps _ found),
            (s, o, n, keeps _ seen),
            (z, (now, keeps _ t, late)),
            keeps _ off,
          ),
        ),
        elim [
          | bad e ↦ tt
          | good _ ↦
              requeue-Ensures (codes "requeue unregistered runner ")
                (event (delete_runner r.instance_id r.key) (good tt) ∷ later)
                (λ owned. inr (removed owned), inr (inr (inl refl)))
        ],
      ))

  pub reconcile_duplicate_runners-Ensures :
      (past : History)
      → IsDuplicated h r past
      → Ensures P Always past (reconcile_duplicate_runners h r)
  unfolding reconcile_duplicate_runners
  reconcile_duplicate_runners-Ensures past (e, twice, seen) = (
    (refl, (e, twice, seen)),
    elim [
      | bad _ ↦ tt
      | good _ ↦ after_removal-Ensures _ _ _ (λ later keeps removed.
          requeue-Ensures (codes "requeue duplicate runners for ") later
            (removed, inr (inl ((e, twice, keeps _ (inr seen)), keeps _ (inl refl)))))
    ],
  )

  observe_missing-Ensures :
      (past : History)
      → Saw (event (find_runner r.key) (good none)) past
      → Ensures P Always past (observe_missing h r)
  unfolding observe_missing
  observe_missing-Ensures past seen = (
    tt,
    λ now. (
      tt,
      elim [
        | bad e ↦ tt
        | good false ↦ tt
        | good true ↦ after_removal-Ensures _ _ _ (λ later keeps removed.
            requeue-Ensures (codes "requeue missing runner ") later
              (removed, inl (now, keeps _ (inr (inr seen)), keeps _ (inl refl))))
      ],
    ),
  )

  pub reconcile_provider_missing_runner-Ensures :
      (past : History)
      → Saw (event (find_runner r.key) (good none)) past
      → Ensures P Always past (reconcile_provider_missing_runner h r)
  unfolding reconcile_provider_missing_runner
  reconcile_provider_missing_runner-Ensures past seen =
      Ensures-if P Always past (r.github_missing_checks == 0) _ _
        (λ _. observe_missing-Ensures past seen)
        (λ _. (tt, elim [ bad e ↦ tt | good _ ↦ observe_missing-Ensures _ (inr seen) ]))

  -- A runner that is not starting any more.
  abbrev Started : History → Type 0
  Started past = (is_zero r.registered_at ≡ false) ⊎ IsLate h r past

  within_startup-Ensures :
      (past : History)
      → Ensures P
          (λ later b. Keeps past later × (b ≡ false → Started later))
          past
          (within_startup h r)
  unfolding within_startup
  within_startup-Ensures past =
      Ensures-if P _ past (is_zero r.registered_at) _ _
        (λ zero.
          (tt, λ now. (λ e seen. inr seen, λ late. inr (zero, (now, inl refl, ground arith)))))
        (λ dated. (λ e seen. seen, λ _. inl dated))

  schedule_missing-Ensures :
      (past : History)
      → IsFound h r past
      → IsUnregistered h r past
      → Ensures P Always past (schedule_missing h r)
  unfolding schedule_missing
  schedule_missing-Ensures past found missing = ((refl, found, inr missing), λ stored. tt)

  pub reconcile_github_missing_runner-Ensures :
      (past : History)
      → IsFound h r past
      → Ensures P Always past (reconcile_github_missing_runner h r)
  unfolding reconcile_github_missing_runner
  reconcile_github_missing_runner-Ensures past (i, found) = (
    tt,
    λ now. (
      tt,
      elim [
        | bad e ↦ tt
        | good false ↦ tt
        | good true ↦
            Ensures-bind P _ Always _ (within_startup h r) _ (within_startup-Ensures _)
              (λ later starting (keeps, started).
                Ensures-if P Always later starting _ _ (λ _. tt)
                  (λ over.
                    schedule_missing-Ensures later (i, keeps _ (inr (inr found)))
                      ((now, keeps _ (inl refl)), started over)))
      ],
    ),
  )
