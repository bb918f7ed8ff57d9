-- ===== src/Webhook/Worker/Ends.antt =====
-- internal/webhook/handler.go, `process`, `provision` and `delete`, in every environment.
use github_runners_infra.Prelude.{not, [], Text, text_eq, ◌≡◌, ◌≢◌, ◌⊎◌, inl, inr, refl}
use github_runners_infra.Record.{Record, WorkKind, no_work, work_provision, work_delete}
use github_runners_infra.Record.Deleting.{on_mark_orphaned}
use github_runners_infra.Webhook.Calls.{Call, StoreCall, store}
use github_runners_infra.Program.{run}
use github_runners_infra.Webhook.Program.{History, Environment}
use github_runners_infra.Program.Rules.{
  Ensures, EveryCall, Ensures-run, Ensures-bind, Ensures-if, Ensures-weaken,
}
use github_runners_infra.Webhook.Handler.{Handler}
use github_runners_infra.Webhook.Retreat.{mark_orphaned}
use github_runners_infra.Webhook.Retreat.Steps.{mark_orphaned-Ensures}
use github_runners_infra.Webhook.Stored.{Ends, tried, Releases, Frees}
use github_runners_infra.Webhook.Stored.Frees.{
  on_release_claim-Frees_provision, on_release_claim-Frees_delete, on_mark_orphaned-Frees_provision,
  on_mark_orphaned-Frees_delete,
}
use github_runners_infra.Webhook.Provision.{provision}
use github_runners_infra.Webhook.Provision.Steps.{IsOrderly, provision-Ensures}
use github_runners_infra.Webhook.Deletion.{delete}
use github_runners_infra.Webhook.Deletion.Steps.{Waits}
use github_runners_infra.Webhook.Deletion.Due.{IsDue}
use github_runners_infra.Webhook.Deletion.Order.{delete-Ensures}
use github_runners_infra.Webhook.Worker.{work_on, process, provider_mismatch}

-- In every environment, `provision` creates an instance only after the provider showed none, the
-- record was open and GitHub said that the job is queued, an owned registration was removed and
-- forgotten, a new registration was made and recorded, and the record and GitHub confirmed the
-- demand once more; the instance gets that registration. It calls `DeleteRunner` only for an
-- instance that the provider has just shown where the record knows no registration, and never
-- calls `FinishDeletedRunner`.
pub provision-IsOrderly :
    (h : Handler) (r : Record) (env : Environment)
    → EveryCall (IsOrderly h r []) (run env [] (provision h r)).0
provision-IsOrderly h r env =
    (Ensures-run _ _ env [] (provision h r) (provision-Ensures h r []) tt).0

-- In every environment, `delete` calls `DeleteRunner` only as its first call, for the instance
-- of the record, and not if the deletion was accepted before and can be confirmed. It calls
-- `FinishDeletedRunner` only after the deletion was requested, its absence confirmed if that is
-- possible, other instances of the job and an owned registration removed, and the demand of the
-- original job checked; it creates no instance and registers no runner.
pub delete-IsDue :
    (h : Handler) (r : Record) (env : Environment)
    → EveryCall (IsDue h r []) (run env [] (delete h r)).0
delete-IsDue h r env = (Ensures-run _ _ env [] (delete h r) (delete-Ensures h r []) tt).0

-- The claim is ended, the last resort was tried, or the deletion waits for its confirmation.
abbrev pub EndsWork : Record → WorkKind → History → Type 0
EndsWork r kind past = Ends r.key kind past ⊎ ((kind ≡ work_delete) × Waits r past)

abbrev Free : History → Call → Type 0
Free past c = Unit {0}

work_on-Ensures :
    (h : Handler) (r : Record) (kind : WorkKind) (past : History)
    → kind ≢ no_work
    → Ensures Free (λ later _. EndsWork r kind later) past (work_on h r kind)
unfolding work_on
work_on-Ensures h r no_work past real = absurd (real refl)
work_on-Ensures h r work_provision past real =
    Ensures-weaken (IsOrderly h r past) Free _ _ past (provision h r) (λ p c i. tt)
      (λ p a ended. inl ended) (provision-Ensures h r past)
work_on-Ensures h r work_delete past real =
    Ensures-weaken (IsDue h r past) Free _ _ past (delete h r) (λ p c i. tt)
      (λ p a. elim [ inl ended ↦ inl ended | inr waits ↦ inr (refl, waits) ])
      (delete-Ensures h r past)

on_mark_orphaned-Frees :
    (kind : WorkKind) → kind ≢ no_work → (message : Text) → Frees kind (on_mark_orphaned message)
on_mark_orphaned-Frees no_work real = absurd (real refl)
on_mark_orphaned-Frees work_provision real = on_mark_orphaned-Frees_provision
on_mark_orphaned-Frees work_delete real = on_mark_orphaned-Frees_delete

released :
    (r : Record) (kind : WorkKind)
    → kind ≢ no_work
    → Releases r.key kind (store (StoreCall.release_claim r.key kind))
released r no_work real now = absurd (real refl)
released r work_provision real now = (refl, on_release_claim-Frees_provision)
released r work_delete real now = (refl, on_release_claim-Frees_delete)

process-Ensures :
    (h : Handler) (r : Record) (kind : WorkKind) (past : History)
    → kind ≢ no_work
    → Ensures Free (λ later _. EndsWork r kind later) past (process h r kind)
unfolding process
process-Ensures h r kind past real = (
  tt,
  λ ended.
      Ensures-if Free _ _ ended _ _ (λ _. (tt, λ stored. inl (tried (released r kind real) tt)))
        (λ _.
          Ensures-if Free _ _ (not (text_eq r.provider h.provider)) _ _
            (λ _.
              Ensures-bind Free (λ later _. Ends r.key kind later) _ _
                (mark_orphaned r (provider_mismatch h r)) _
                (mark_orphaned-Ensures Free (λ p c m. tt) kind r (provider_mismatch h r)
                  (on_mark_orphaned-Frees kind real) _)
                (λ later _ made. inl made))
            (λ _. work_on-Ensures h r kind _ real)),
)

-- In every environment, the last call of `process`, but for signals to the workers and a
-- `ScheduleDeletion` that succeeded, is a call of the store which ends the claim of any record that is
-- claimed for this kind of work and neither deleted nor orphaned; where that call failed, it is no
-- `MarkProvisioned`, `MarkDeleted` or `FinishDeletedRunner`, and a `MarkDeleteFailed` only right after
-- the clock, read once the context had been found not to have ended. Or else the work is a deletion
-- and the last call was a `DeferDeletionConfirmation` that succeeded.
pub process-EndsWork :
    (h : Handler) (r : Record) (kind : WorkKind) (env : Environment)
    → kind ≢ no_work
    → EndsWork r kind (run env [] (process h r kind)).0
process-EndsWork h r kind env real =
    (Ensures-run Free _ env [] (process h r kind) (process-Ensures h r kind [] real) tt).1
