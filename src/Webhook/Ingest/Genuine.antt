-- ===== src/Webhook/Ingest/Genuine.antt =====
-- internal/webhook/handler.go, `ServeHTTP`: when a request may change the store.
use github_runners_infra.Prelude.{
  ℕ, Bool, true, Option, some, List, [], ◌∷◌, Text, codes, mem, ◌≡◌, ◌⊎◌,
}
use github_runners_infra.Record.{Record}
use github_runners_infra.Webhook.Names.{job_key}
use github_runners_infra.Webhook.Labels.Allowlist.{IsSelection}
use github_runners_infra.Webhook.RunnerName.{looks_like_ephemeral_runner_name}
use github_runners_infra.Webhook.Handler.{Handler}
use github_runners_infra.Webhook.Failure.{good}
use github_runners_infra.Webhook.Calls.{Call, StoreCall, store, trusted_workflow_run, time_now}
use github_runners_infra.Webhook.Program.{History, event}
use github_runners_infra.Webhook.Request.{
  RepoInfo, Request, WorkflowJobEvent, verify_webhook_signature, is_delivery_id, full_name_of,
}
use github_runners_infra.Webhook.Ingest.{queued_record, completion_record}

-- The repository is on the allowlist, and on that of public repositories unless it is private.
abbrev pub IsServed : Handler → RepoInfo → Type 0
IsServed h repo =
    (mem (full_name_of repo) h.allowed_repositories ≡ true)
    × ((repo.private_repo ≡ true) ⊎ (mem (full_name_of repo) h.allowed_public_repositories ≡ true))

-- A request that is signed, for this installation and for a repository that is served.
pub record IsGenuine (h : Handler) (decode : Text → Option WorkflowJobEvent) (q : Request)
    (body : Text) (ev : WorkflowJobEvent) : Type 0 where
  pub is_post : q.method ≡ codes "POST"
  pub has_body : q.body ≡ some body
  pub signed : verify_webhook_signature h body q.signature ≡ true
  pub is_workflow_job : q.event_type ≡ codes "workflow_job"
  pub decoded : decode body ≡ some ev
  pub installation : ev.installation_id ≡ h.installation_id
  pub served : IsServed h ev.repo

-- GitHub vouched for the run just before, unless no public repository is involved.
abbrev pub IsTrusted : Handler → WorkflowJobEvent → History → Type 0
IsTrusted h ev past =
    ((ev.repo.private_repo ≡ true) × (h.allowed_public_repositories ≡ []))
    ⊎ ((earlier : History) × (past
          ≡ event (trusted_workflow_run ev.repo.owner_login ev.repo.name ev.run_id) (good true)
            ∷ earlier))

-- When a job is queued: the event says so, its labels are allowed, and the record is made from it.
abbrev pub IsQueuedEvent : Handler → Request → WorkflowJobEvent → History → Record → Type 0
IsQueuedEvent h q ev past r =
    (labels : List Text) × (ev.action ≡ codes "queued")
    × IsSelection h.label_policy ev.labels labels
    × (is_delivery_id q.delivery_id ≡ true)
    × (r ≡ queued_record h q ev (full_name_of ev.repo) labels)
    × IsTrusted h ev past

-- The store knows the job, or the runner of the job is ours or is named like ours.
abbrev pub IsOurs : WorkflowJobEvent → History → Type 0
IsOurs ev past =
    ((r : Record) × (earlier : History) × (past
        ≡ event (store (StoreCall.get_record (job_key (full_name_of ev.repo) ev.job_id)))
            (good (some r))
          ∷ earlier))
    ⊎ ((owned : Bool) × (earlier : History) × ((owned ≡ true)
          ⊎ (looks_like_ephemeral_runner_name ev.runner_name ≡ true))
        × (past
            ≡ event (store (StoreCall.owns_runner ev.repo.owner_login ev.repo.name ev.runner_id))
                (good owned)
              ∷ earlier))

abbrev pub IsCompletedEvent : Handler → Request → WorkflowJobEvent → History → Record → Type 0
IsCompletedEvent h q ev past r =
    (labels : List Text) × (now : ℕ) × (earlier : History) × (ev.action ≡ codes "completed")
    × IsSelection h.label_policy ev.labels labels
    × (r ≡ completion_record h q ev (full_name_of ev.repo) now)
    × (past ≡ event time_now now ∷ earlier)
    × IsOurs ev earlier

-- When a request may change the store.
abbrev pub IsAuthorized :
    Handler → (Text → Option WorkflowJobEvent) → Request → History → Call → Type 0
IsAuthorized h decode q past (store (StoreCall.create r)) =
    (body : Text) × (ev : WorkflowJobEvent) × IsGenuine h decode q body ev
    × IsQueuedEvent h q ev past r
IsAuthorized h decode q past (store (StoreCall.record_completion r)) =
    (body : Text) × (ev : WorkflowJobEvent) × IsGenuine h decode q body ev
    × IsCompletedEvent h q ev past r
IsAuthorized h decode q past (store (StoreCall.get_record _)) = Unit {0}
IsAuthorized h decode q past (store (StoreCall.owns_runner _ _ _)) = Unit {0}
IsAuthorized h decode q past (store _) = ⊥
IsAuthorized h decode q past _ = Unit {0}
