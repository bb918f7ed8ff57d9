-- ===== src/Webhook/Ingest.antt =====
-- internal/webhook/handler.go, `ServeHTTP` and `handleQueued`. The decoding of the body by
-- `encoding/json` is a parameter.
pub mod Genuine
pub mod Authorized
use github_runners_infra.Prelude.{
  ℕ, ◌+◌, Bool, true, false, ◌&&◌, ◌||◌, not, Option, none, some, List, [], ◌∷◌, Text, text_eq,
  codes, ◌==◌, if◌then◌else◌,
}
use github_runners_infra.Record.{Record}
use github_runners_infra.Webhook.{Checked, accepted, refused}
use github_runners_infra.Webhook.Names.{job_key}
use github_runners_infra.Webhook.Labels.{authorize_labels}
use github_runners_infra.Webhook.RunnerName.{looks_like_ephemeral_runner_name}
use github_runners_infra.Webhook.Handler.{Handler}
use github_runners_infra.Webhook.Failure.{Outcome, good, bad}
use github_runners_infra.Webhook.Calls.{
  StoreCall, store, trusted_workflow_run, ingest_slot, time_now, signal,
}
use github_runners_infra.Program.{done, ask, ◌>>=◌, ◌>>◌}
use github_runners_infra.Webhook.Program.{Prog, call}
use github_runners_infra.Webhook.Request.{
  Request, Response, WorkflowJobEvent, verify_webhook_signature, is_delivery_id,
  validate_repository, zero_record,
}

abbrev pub respond : ℕ → Text → Prog Response
respond status message = done (record { status = status; message = message })

abbrev pub ignored : Prog Response
ignored = respond 200 (codes "ignored")

abbrev state_unavailable : Prog Response
state_unavailable = respond 503 (codes "state unavailable")

-- len(list) == 0
abbrev pub is_none : List Text → Bool
is_none [] = true
is_none (_ ∷ _) = false

module _ (h : Handler) (q : Request) (ev : WorkflowJobEvent) (repository : Text) where
  -- The record of a queued job.
  unfoldable pub queued_record : List Text → Record
  queued_record labels = record zero_record {
    key = job_key repository ev.job_id;
    delivery_id = q.delivery_id;
    job_id = ev.job_id;
    owner = ev.repo.owner_login;
    repository = ev.repo.name;
    labels = labels;
    provider = h.provider;
  }

  -- `handleQueued`
  unfoldable pub handle_queued : List Text → Prog Response
  handle_queued labels =
      if not (is_delivery_id q.delivery_id)
      then respond 400 (codes "missing or invalid delivery ID")
      else ask (store (StoreCall.create (queued_record labels))) (elim [
        | bad _ ↦ state_unavailable
        | good false ↦ respond 200 (codes "duplicate")
        | good true ↦ do call signal; respond 202 (codes "queued")
      ])

  -- A public repository, or any if some public one is served, needs GitHub's word on the run.
  unfoldable pub needs_trust : Bool
  needs_trust = not ev.repo.private_repo || not (is_none h.allowed_public_repositories)

  unfoldable pub queued : List Text → Prog Response
  unfolding handle_queued
  queued labels =
      if needs_trust
      then ask (trusted_workflow_run ev.repo.owner_login ev.repo.name ev.run_id) (elim [
        | bad _ ↦ respond 503 (codes "workflow verification unavailable")
        | good false ↦ respond 403 (codes "workflow event not authorized")
        | good true ↦ handle_queued labels
      ])
      else handle_queued labels

  -- The completion that is recorded at `now`.
  unfoldable pub completion_record : ℕ → Record
  completion_record now = record zero_record {
    key = job_key repository ev.job_id;
    job_id = ev.job_id;
    owner = ev.repo.owner_login;
    repository = ev.repo.name;
    provider = h.provider;
    github_runner_id = ev.runner_id;
    runner_name = ev.runner_name;
    next_attempt_at = now + h.limits.cancelled_runner_ttl;
  }

  unfoldable pub record_completion : Prog Response
  record_completion = do
    now ← call time_now
    ask (store (StoreCall.record_completion (completion_record now))) (elim [
      | bad _ ↦ state_unavailable
      | good _ ↦ do call signal; respond 202 (codes "completion recorded")
    ])

  -- The completion of a job with no record counts if its runner is ours or is named like ours.
  unfoldable pub completed_unknown : Prog Response
  unfolding record_completion
  completed_unknown =
      ask (store (StoreCall.owns_runner ev.repo.owner_login ev.repo.name ev.runner_id)) (elim [
        | bad _ ↦ state_unavailable
        | good owned ↦
            if not owned && not (looks_like_ephemeral_runner_name ev.runner_name)
            then ignored
            else record_completion
      ])

  unfoldable pub completed : Prog Response
  unfolding completed_unknown
  completed = ask (store (StoreCall.get_record (job_key repository ev.job_id))) (elim [
    | bad _ ↦ state_unavailable
    | good none ↦ completed_unknown
    | good (some _) ↦ record_completion
  ])

  -- Both actions need labels that are ours and allowed.
  unfoldable pub with_labels :
      (List Text → Prog Response) → Checked (List Text) × Bool → Prog Response
  with_labels go (result, false) = ignored
  with_labels go (refused _, true) = respond 403 (codes "runner labels not authorized")
  with_labels go (accepted labels, true) = go labels

  unfoldable pub dispatch : Prog Response
  unfolding queued completed with_labels
  dispatch =
      if text_eq ev.action (codes "queued")
      then with_labels queued (authorize_labels h.label_policy ev.labels)
      else if text_eq ev.action (codes "completed")
      then with_labels (λ _. completed) (authorize_labels h.label_policy ev.labels)
      else ignored

module _ (h : Handler) (decode : Text → Option WorkflowJobEvent) (q : Request) where
  unfoldable pub route : WorkflowJobEvent → Checked (Text × Bool) → Prog Response
  unfolding dispatch
  route ev (refused _) = respond 403 (codes "repository not authorized")
  route ev (accepted (repository, false)) = ignored
  route ev (accepted (repository, true)) = dispatch h q ev repository

  unfoldable pub handle_event : Option WorkflowJobEvent → Prog Response
  unfolding route
  handle_event none = respond 400 (codes "invalid request")
  handle_event (some ev) =
      if not (ev.installation_id == h.installation_id)
      then respond 403 (codes "installation not authorized")
      else route ev (validate_repository h ev.repo)

  unfoldable pub handle_body : Option Text → Prog Response
  unfolding handle_event
  handle_body none = respond 400 (codes "invalid request")
  handle_body (some body) =
      if not (verify_webhook_signature h body q.signature)
      then respond 401 (codes "unauthorized")
      else if not (text_eq q.event_type (codes "workflow_job"))
      then ignored
      else (do
        admitted ← call ingest_slot
        if admitted
            then handle_event (decode body)
            else respond 503 (codes "webhook ingest busy; retry later"))

  -- `ServeHTTP`
  unfoldable pub serve_http : Prog Response
  unfolding handle_body
  serve_http =
      if not (text_eq q.method (codes "POST"))
      then respond 405 (codes "method not allowed")
      else handle_body q.body
