-- ===== src/Webhook/Deletion/Order.antt =====
-- internal/webhook/handler.go, `delete`: the order of its calls.
use github_runners_infra.Prelude.{
  Bool, true, false, ◌&&◌, ◌||◌, not, Option, none, some, text_eq, text_eq_iff, ◌≡◌, ◌≢◌, ◌⊎◌, inl,
  inr, refl, ◌∷◌, arith,
}
use github_runners_infra.Record.{Record}
use github_runners_infra.Webhook.Failure.{Failure, Outcome, good, bad, failed}
use github_runners_infra.Webhook.Calls.{
  Call, StoreCall, store, create_runner, delete_runner, generate_jit_config,
}
use github_runners_infra.Webhook.Program.{History, event}
use github_runners_infra.Program.Rules.{Ensures, Ensures-if, Ensures-bind}
use github_runners_infra.Webhook.Handler.{Handler, owns_registration}
use github_runners_infra.Webhook.Retreat.Steps.{IsModest}
use github_runners_infra.Webhook.Deletion.{
  recheck_cleaned_runner_demand, recheck_and_finish, deregister, after_cleanup, clean_up,
  confirm_absence, after_request, request_deletion, delete_requested, delete,
}
use github_runners_infra.Webhook.Deletion.Steps.{
  IsOver, deletion_step_failed-Ensures, request_failed-Ensures, await_absence-Ensures,
  deregistration_failed-Ensures, finish-Ensures,
}
use github_runners_infra.Webhook.Deletion.Due.{
  IsRequested, IsGone, IsCleaned, IsRechecked, IsFinishable, IsDue,
}

modest-IsDue :
    (h : Handler) (r : Record) (start past : History) (c : Call)
    → IsModest c
    → IsDue h r start past c
modest-IsDue h r start past (create_runner p) m = m
modest-IsDue h r start past (delete_runner i k) m = absurd m
modest-IsDue h r start past (generate_jit_config o n name g ls) m = m
modest-IsDue h r start past (store (StoreCall.finish_deleted_runner k q)) m = absurd m
modest-IsDue h r start past _ m = tt

module _ (h : Handler) (r : Record) (start : History) where
  abbrev P : History → Call → Type 0
  P = IsDue h r start

  abbrev modest : (past : History) (c : Call) → IsModest c → P past c
  modest = modest-IsDue h r start

  -- What the check of the demand answered, if it answered.
  abbrev Answers : History → History → Outcome Bool → Type 0
  Answers before past (good queued) = IsRechecked r before past queued
  Answers before past (bad e) = Unit {0}

  recheck-Ensures :
      (before : History) → Ensures P (Answers before) before (recheck_cleaned_runner_demand r)
  unfolding recheck_cleaned_runner_demand
  recheck-Ensures before =
      Ensures-if P (Answers before) before (not r.recheck_demand || r.job_completed) _ _
        (λ closed. inl (refl, refl))
        (λ open_demand. (
          tt,
          elim [
            | bad e ↦ tt
            | good none ↦ tt
            | good (some current) ↦
                Ensures-if P (Answers before) _ current.job_completed _ _
                  (λ completed. inr (inl (current, refl, completed, refl)))
                  (λ uncompleted. (
                    tt,
                    elim [
                      | bad e ↦ tt
                      | good status ↦ inr (
                          inr
                            (current, status, refl, ground arith, ground arith, uncompleted, refl))
                    ],
                  ))
          ],
        ))

  recheck_and_finish-Ensures :
      (deregistered : History)
      → ((past : History) (queued : Bool)
          → IsRechecked r deregistered past queued
          → IsFinishable h r start past r.key queued)
      → Ensures P (IsOver r) deregistered (recheck_and_finish h r)
  unfolding recheck_and_finish
  recheck_and_finish-Ensures deregistered may =
      Ensures-bind P (Answers deregistered) (IsOver r) deregistered
        (recheck_cleaned_runner_demand r) _ (recheck-Ensures deregistered)
        (λ past. elim [
          | bad e ↦ λ _. finish-Ensures P modest h r (bad e) past tt
          | good queued ↦
              λ answered. finish-Ensures P modest h r (good queued) past (may past queued answered)
        ])

  deregister-Ensures :
      (requested gone cleaned : History)
      → IsRequested h r start requested
      → IsGone h r requested gone
      → IsCleaned r gone cleaned
      → Ensures P (IsOver r) cleaned (deregister h r)
  unfolding deregister
  deregister-Ensures requested gone cleaned asked absent swept =
      Ensures-if P (IsOver r) cleaned (owns_registration r) _ _
        (λ owned. (
          tt,
          elim [
            | bad e ↦ deregistration_failed-Ensures P modest h r e _
            | good tt ↦ recheck_and_finish-Ensures _ (λ past queued rechecked. (
              requested,
              gone,
              cleaned,
              _,
              refl,
              asked,
              absent,
              swept,
              inr (owned, refl),
              rechecked,
            ))
          ],
        ))
        (λ unowned. recheck_and_finish-Ensures cleaned (λ past queued rechecked. (
          requested,
          gone,
          cleaned,
          cleaned,
          refl,
          asked,
          absent,
          swept,
          inl (unowned, refl),
          rechecked,
        )))

  clean_up-Ensures :
      (requested gone : History)
      → IsRequested h r start requested
      → IsGone h r requested gone
      → Ensures P (IsOver r) gone (clean_up h r)
  unfolding clean_up after_cleanup
  clean_up-Ensures requested gone asked absent =
      Ensures-if P (IsOver r) gone (h.cleans_up_except && h.confirms_absence) _ _
        (λ _. (
          tt,
          elim [
            | bad e ↦ deletion_step_failed-Ensures P modest h r e _
            | good tt ↦ deregister-Ensures requested gone _ asked absent (inr refl)
          ],
        ))
        (λ _. (
          tt,
          elim [
            | bad e ↦ deletion_step_failed-Ensures P modest h r e _
            | good tt ↦ deregister-Ensures requested gone _ asked absent (inl refl)
          ],
        ))

  confirm_absence-Ensures :
      (requested : History)
      → IsRequested h r start requested
      → Ensures P (IsOver r) requested (confirm_absence h r)
  unfolding confirm_absence
  confirm_absence-Ensures requested asked =
      Ensures-if P (IsOver r) requested h.confirms_absence _ _
        (λ confirms. (
          tt,
          elim [
            | bad e ↦ await_absence-Ensures P modest h r (some e) _
            | good false ↦ await_absence-Ensures P modest h r none _
            | good true ↦ clean_up-Ensures requested _ asked (inr (confirms, refl))
          ],
        ))
        (λ unconfirmed. clean_up-Ensures requested requested asked (inl (unconfirmed, refl)))

  -- Without an error the deletion is requested.
  abbrev RequestedOr : History → Option Failure → Type 0
  RequestedOr past none = IsRequested h r start past
  RequestedOr past (some e) = Unit {0}

  after_request-Ensures :
      (o : Outcome (Unit {0}))
      → Ensures P RequestedOr
          (event (delete_runner r.instance_id r.key) o ∷ start)
          (after_request h r o)
  unfolding after_request
  after_request-Ensures (bad e) = tt
  after_request-Ensures (good tt) =
      Ensures-if P RequestedOr _ h.confirms_absence _ _
        (λ confirms.
          (tt, unfold failed in elim [ bad e ↦ tt | good tt ↦ inr (inl (confirms, refl)) ]))
        (λ unconfirmed. inl (unconfirmed, refl))

  request_deletion-Ensures : Ensures P RequestedOr start (request_deletion h r)
  unfolding request_deletion
  request_deletion-Ensures =
      Ensures-if P RequestedOr start
        (not h.confirms_absence || not (text_eq r.deletion_accepted_id r.instance_id)) _ _
        (λ first. ((refl, refl, refl, first_request first), after_request-Ensures))
        (λ again. inr (inr (ground arith, accepted again, refl)))
    where
      first_request :
          (not h.confirms_absence || not (text_eq r.deletion_accepted_id r.instance_id)) ≡ true
          → (h.confirms_absence ≡ false) ⊎ (r.deletion_accepted_id ≢ r.instance_id)
      first_request first = ground (arith, text_eq_iff r.deletion_accepted_id r.instance_id)

      accepted :
          (not h.confirms_absence || not (text_eq r.deletion_accepted_id r.instance_id)) ≡ false
          → r.deletion_accepted_id ≡ r.instance_id
      accepted again = ground (arith, text_eq_iff r.deletion_accepted_id r.instance_id)

  -- Whatever the answers, `delete` asks for the deletion once, finishes the record only after all
  -- that must come before, and ends its claim or waits for the confirmation.
  pub delete-Ensures : Ensures P (IsOver r) start (delete h r)
  unfolding delete delete_requested
  delete-Ensures =
      Ensures-bind P RequestedOr (IsOver r) start (request_deletion h r) (delete_requested h r)
        request_deletion-Ensures
        (λ past. elim [
          | none ↦ λ asked. confirm_absence-Ensures past asked
          | some e ↦ λ _. request_failed-Ensures P modest h r e past
        ])
