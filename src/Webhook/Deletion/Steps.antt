-- ===== src/Webhook/Deletion/Steps.antt =====
-- internal/webhook/handler.go, `delete`: what came before a record is finished, and how the claim of
-- the deletion ends.
use github_runners_infra.Prelude.{
  ℕ, Bool, true, false, Option, none, some, Text, ◌≡◌, ◌⊎◌, inl, inr, refl, ◌∷◌, ap, if◌then◌else◌,
}
use github_runners_infra.Record.{Record, work_delete}
use github_runners_infra.Webhook.Failure.{Failure, Outcome, good, bad}
use github_runners_infra.Webhook.Calls.{Call, StoreCall, store, context_ended, time_now}
use github_runners_infra.Program.{done, ◌>>=◌}
use github_runners_infra.Webhook.Program.{Prog, History, event}
use github_runners_infra.Program.Rules.{Ensures, Ensures-if, Ensures-bind}
use github_runners_infra.Webhook.Handler.{Handler}
use github_runners_infra.Webhook.Stored.{Asked, Ends, freed, tried, signalled}
use github_runners_infra.Webhook.Stored.Frees.{
  on_release_claim-Frees_delete, on_mark_orphaned-Frees_delete, on_mark_delete_failed-Frees,
  on_finish_deleted_runner-Frees, on_defer_reassignment_demand-Frees,
  on_defer_rate_limited_work-Frees_delete,
}
use github_runners_infra.Webhook.Retreat.{
  in_time, retry_after, retry_time, mark_orphaned, throttle_retry_at,
}
use github_runners_infra.Webhook.Retreat.Steps.{
  IsModest, Always, in_time-Ensures, throttle_retry_at-Ensures, retry_after-Ensures,
  retry_time-Ensures, mark_orphaned-Ensures,
}
use github_runners_infra.Webhook.Deletion.{
  is_canceled, release_delete, release_canceled_delete, fail_deletion, deletion_step_failed,
  request_failed, await_absence, throttled_or_failed, deregistration_failed, demand_unknown,
  finish_failed, finish,
}

-- The claim of the deletion is ended, or the last try of this failed.
abbrev pub IsFreed : {A : Type 0} → Record → History → A → Type 0
IsFreed r past a = Ends r.key work_delete past

-- The last call was a `DeferDeletionConfirmation` without an error.
abbrev pub Waits : Record → History → Type 0
Waits r past =
    (message : Text) × (retry_at : ℕ) × (earlier : History) × (past
      ≡ event (store (StoreCall.defer_deletion_confirmation r.key message retry_at)) (good tt)
        ∷ earlier)

abbrev pub IsOver : {A : Type 0} → Record → History → A → Type 0
IsOver r past a = Ends r.key work_delete past ⊎ Waits r past

abbrev Released : Record → History → Bool → Type 0
Released r past true = Ends r.key work_delete past
Released r past false = Asked past

abbrev Reads : History → History → ℕ → Type 0
Reads past later retry_at = (now : ℕ) × (later ≡ event time_now now ∷ past)

-- Failing steps, under any condition that modest calls meet.
module _ (P : History → Call → Type 0)
    (modest : (past : History) (c : Call) → IsModest c → P past c) (h : Handler) (r : Record) where
  release_delete-Ensures : (past : History) → Ensures P (Released r) past (release_delete r)
  unfolding release_delete
  release_delete-Ensures past =
      (modest past _ tt, λ s. tried (λ now. (refl, on_release_claim-Frees_delete)) tt)

  release_canceled_delete-Ensures :
      (e : Option Failure) (past : History)
      → Ensures P (Released r) past (release_canceled_delete r e)
  unfolding release_canceled_delete
  release_canceled_delete-Ensures e past =
      Ensures-if P (Released r) past (is_canceled e) _ _ (λ _. release_delete-Ensures past)
        (λ _. (
          modest past _ tt,
          λ ended.
              Ensures-if P (Released r) (event context_ended ended ∷ past) ended _ _
                (λ _. release_delete-Ensures _)
                (λ going. (past, ap (λ b. event context_ended b ∷ past) going)),
        ))

  -- A step that is tried only if the context has not ended.
  unless_canceled-Ensures :
      (e : Option Failure) (m : Prog (Unit {0})) (past : History)
      → ((later : History) → Asked later → Ensures P (IsOver r) later m)
      → Ensures P
          (IsOver r)
          past
          (release_canceled_delete r e >>= λ released. if released then done tt else m)
  unless_canceled-Ensures e m past next =
      Ensures-bind P (Released r) (IsOver r) past (release_canceled_delete r e) _
        (release_canceled_delete-Ensures e past)
        (λ later. elim [ true ↦ λ ended. inl ended | false ↦ λ asked. next later asked ])

  retry_after-Reads :
      (attempt : ℕ) (past : History) → Ensures P (Reads past) past (retry_after attempt)
  unfolding retry_after in_time
  retry_after-Reads attempt past = (modest past _ tt, λ now. (now, refl))

  fail_deletion-Ensures :
      (e : Failure) (past : History) → Asked past → Ensures P (IsOver r) past (fail_deletion h r e)
  unfolding fail_deletion
  fail_deletion-Ensures e past asked =
      Ensures-bind P (Reads past) (IsOver r) past (retry_after r.delete_attempts) _
        (retry_after-Reads r.delete_attempts past)
        (λ later retry_at (read, same). (
          modest later _ tt,
          λ stored. (
            modest _ _ tt,
            λ s. inl (
                signalled (
                  tried
                    (λ now.
                      (refl, on_mark_delete_failed-Frees e.message retry_at h.limits.max_attempts))
                    (read, past, same, asked))),
          ),
        ))

  pub deletion_step_failed-Ensures :
      (e : Failure) (past : History) → Ensures P (IsOver r) past (deletion_step_failed h r e)
  unfolding deletion_step_failed
  deletion_step_failed-Ensures e past =
      unless_canceled-Ensures (some e) (fail_deletion h r e) past (fail_deletion-Ensures e)

  orphan-Ensures :
      (e : Failure) (past : History)
      → Ensures P (IsOver r) past (mark_orphaned r e >>= λ _. done tt)
  orphan-Ensures e past =
      Ensures-bind P (IsFreed r) (IsOver r) past (mark_orphaned r e) _
        (mark_orphaned-Ensures P modest work_delete r e on_mark_orphaned-Frees_delete past)
        (λ later _ ended. inl ended)

  pub request_failed-Ensures :
      (e : Failure) (past : History) → Ensures P (IsOver r) past (request_failed h r e)
  unfolding request_failed
  request_failed-Ensures e past = unless_canceled-Ensures (some e) _ past (λ later asked.
      Ensures-if P (IsOver r) later e.ownership_mismatch _ _ (λ _. orphan-Ensures e later)
        (λ _. fail_deletion-Ensures e later asked))

  pub await_absence-Ensures :
      (e : Option Failure) (past : History) → Ensures P (IsOver r) past (await_absence h r e)
  unfolding await_absence
  await_absence-Ensures e past = unless_canceled-Ensures e _ past (λ later asked.
      Ensures-bind P Always (IsOver r) later (retry_after 1) _
        (retry_after-Ensures P modest 1 later)
        (λ last retry_at _. (
          modest last _ tt,
          elim [
            | good tt ↦ inr (_, retry_at, last, refl)
            | bad f ↦
                (modest _ _ tt, λ s. inl (tried (λ now. (refl, on_release_claim-Frees_delete)) tt))
          ],
        )))

  pub deregistration_failed-Ensures :
      (e : Failure) (past : History) → Ensures P (IsOver r) past (deregistration_failed h r e)
  unfolding deregistration_failed
  deregistration_failed-Ensures e past =
      unless_canceled-Ensures (some e) _ past (by_limit e.rate_limit)
    where
      by_limit :
          (limit : Option ℕ) (later : History)
          → Asked later
          → Ensures P (IsOver r) later (throttled_or_failed h r e limit)
      by_limit none later asked = fail_deletion-Ensures e later asked
      by_limit (some reset_at) later asked =
          Ensures-bind P Always (IsOver r) later (throttle_retry_at reset_at) _
            (throttle_retry_at-Ensures P modest reset_at later)
            (λ last retry_at _. (
              modest last _ tt,
              λ stored. (
                modest _ _ tt,
                λ s. inl (
                    signalled (
                      tried
                        (λ now. (
                          refl,
                          on_defer_rate_limited_work-Frees_delete e.message retry_at
                              h.limits.max_attempts,
                        ))
                        tt)),
              ),
            ))

  demand_unknown-Ensures :
      (e : Failure) (past : History) → Ensures P (IsOver r) past (demand_unknown h r e)
  unfolding demand_unknown
  demand_unknown-Ensures e past = unless_canceled-Ensures (some e) _ past (λ later asked.
      Ensures-bind P Always (IsOver r) later (in_time _) _ (in_time-Ensures P modest _ later)
        (λ mid in_a_minute _.
          Ensures-bind P Always (IsOver r) mid (retry_time e.rate_limit (done in_a_minute)) _
            (retry_time-Ensures P modest e.rate_limit (done in_a_minute) mid tt)
            (λ last retry_at _. (
              modest last _ tt,
              λ stored.
                  inl (
                    tried (λ now. (refl, on_defer_reassignment_demand-Frees e.message retry_at))
                      tt),
            ))))

  finish_failed-Ensures :
      (e : Failure) (past : History) → Ensures P (IsOver r) past (finish_failed h r e)
  unfolding finish_failed
  finish_failed-Ensures e past =
      Ensures-bind P Always (IsOver r) past (retry_after r.delete_attempts) _
        (retry_after-Ensures P modest r.delete_attempts past)
        (λ later retry_at _. (
          modest later _ tt,
          elim [
            | good s ↦ (
              modest _ _ tt,
              λ s. inl (
                  signalled (
                    freed (λ now. (
                      refl,
                      on_mark_delete_failed-Frees e.message retry_at h.limits.max_attempts,
                    )))),
            )
            | bad f ↦ (
              modest _ _ tt,
              λ s. (
                modest _ _ tt,
                λ t. inl (signalled (tried (λ now. (refl, on_release_claim-Frees_delete)) tt)),
              ),
            )
          ],
        ))

  -- The record may be finished with the answer of the check, if there is one.
  abbrev pub MayFinish : History → Outcome Bool → Type 0
  MayFinish past (good queued) = P past (store (StoreCall.finish_deleted_runner r.key queued))
  MayFinish past (bad e) = Unit {0}

  pub finish-Ensures :
      (o : Outcome Bool) (past : History)
      → MayFinish past o
      → Ensures P (IsOver r) past (finish h r o)
  unfolding finish
  finish-Ensures (bad e) past may = demand_unknown-Ensures e past
  finish-Ensures (good queued) past may = (
    may,
    elim [
      | bad e ↦ finish_failed-Ensures e _
      | good true ↦ (
        modest _ _ tt,
        λ s. inl (signalled (freed (λ now. (refl, on_finish_deleted_runner-Frees queued)))),
      )
      | good false ↦ inl (freed (λ now. (refl, on_finish_deleted_runner-Frees queued)))
    ],
  )
