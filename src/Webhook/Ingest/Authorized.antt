-- ===== src/Webhook/Ingest/Authorized.antt =====
-- internal/webhook/handler.go, `ServeHTTP`: what must hold of a request that changes the store.
use github_runners_infra.Prelude.{
  Bool, true, false, ◌&&◌, not, Option, none, some, List, [], ◌∷◌, Text, text_eq, text_eq_iff,
  codes, ◌==◌, ◌≡◌, inl, inr, refl, arith, subst, sym,
}
use github_runners_infra.Webhook.{Checked, accepted, refused}
use github_runners_infra.Webhook.Labels.{authorize_labels}
use github_runners_infra.Webhook.Labels.Allowlist.{IsSelection, authorize_labels-IsSelection}
use github_runners_infra.Webhook.RunnerName.{looks_like_ephemeral_runner_name}
use github_runners_infra.Webhook.Handler.{Handler}
use github_runners_infra.Webhook.Failure.{good, bad}
use github_runners_infra.Webhook.Calls.{Call, ingest_slot}
use github_runners_infra.Program.{run}
use github_runners_infra.Webhook.Program.{Prog, History, Environment, event}
use github_runners_infra.Program.Rules.{Ensures, EveryCall, Ensures-run, Ensures-if}
use github_runners_infra.Webhook.Request.{
  RepoInfo, Request, Response, WorkflowJobEvent, verify_webhook_signature, is_delivery_id,
  validate_repository, full_name_of,
}
use github_runners_infra.Webhook.Ingest.{
  is_none, handle_queued, needs_trust, queued, record_completion, completed_unknown, completed,
  with_labels, dispatch, route, handle_event, handle_body, serve_http,
}
use github_runners_infra.Webhook.Ingest.Genuine.{
  IsServed, IsGenuine, IsTrusted, IsOurs, IsAuthorized,
}

abbrev Any : History → Response → Type 0
Any past a = Unit {0}

-- What `validateRepository` has found out of a repository that it accepts for us.
validate_repository-IsServed :
    (h : Handler) (repo : RepoInfo) (name : Text)
    → validate_repository h repo ≡ accepted (name, true)
    → IsServed h repo × (name ≡ full_name_of repo)
unfolding validate_repository
validate_repository-IsServed h repo name e = ((ground arith, ground arith), ground arith)

is_none-nil : (l : List Text) → is_none l ≡ true → l ≡ []
is_none-nil [] h = refl
is_none-nil (x ∷ l) h = cc

module _ (h : Handler) (decode : Text → Option WorkflowJobEvent) (q : Request) (body : Text)
    (ev : WorkflowJobEvent) (genuine : IsGenuine h decode q body ev) where
  abbrev P : History → Call → Type 0
  P = IsAuthorized h decode q

  abbrev name : Text
  name = full_name_of ev.repo

  handle_queued-Ensures :
      (labels : List Text) (past : History)
      → ev.action ≡ codes "queued"
      → IsSelection h.label_policy ev.labels labels
      → IsTrusted h ev past
      → Ensures P Any past (handle_queued h q ev name labels)
  unfolding handle_queued
  handle_queued-Ensures labels past action selection trusted =
      Ensures-if P Any past (not (is_delivery_id q.delivery_id)) _ _ (λ _. tt)
        (λ valid. (
          (body, ev, genuine, (labels, action, selection, ground arith, refl, trusted)),
          elim [ bad e ↦ tt | good false ↦ tt | good true ↦ (tt, λ s. tt) ],
        ))

  queued-Ensures :
      (labels : List Text) (past : History)
      → ev.action ≡ codes "queued"
      → IsSelection h.label_policy ev.labels labels
      → Ensures P Any past (queued h q ev name labels)
  unfolding queued needs_trust
  queued-Ensures labels past action selection =
      Ensures-if P Any past (needs_trust h q ev name) _ _
        (λ _. (
          tt,
          elim [
            | bad e ↦ tt
            | good false ↦ tt
            | good true ↦ handle_queued-Ensures labels _ action selection (inr (past, refl))
          ],
        ))
        (λ private_only.
          handle_queued-Ensures labels past action selection
            (inl (ground arith, is_none-nil h.allowed_public_repositories (ground arith))))

  record_completion-Ensures :
      (labels : List Text) (past : History)
      → ev.action ≡ codes "completed"
      → IsSelection h.label_policy ev.labels labels
      → IsOurs ev past
      → Ensures P Any past (record_completion h q ev name)
  unfolding record_completion
  record_completion-Ensures labels past action selection ours = (
    tt,
    λ now. (
      (body, ev, genuine, (labels, now, past, action, selection, refl, refl, ours)),
      elim [ bad e ↦ tt | good s ↦ (tt, λ t. tt) ],
    ),
  )

  completed-Ensures :
      (labels : List Text) (past : History)
      → ev.action ≡ codes "completed"
      → IsSelection h.label_policy ev.labels labels
      → Ensures P Any past (completed h q ev name)
  unfolding completed completed_unknown
  completed-Ensures labels past action selection = (
    tt,
    elim [
      | bad e ↦ tt
      | good (some r) ↦ record_completion-Ensures labels _ action selection (inl (r, past, refl))
      | good none ↦ (
        tt,
        elim [
          | bad e ↦ tt
          | good owned ↦
              Ensures-if P Any _
                (not owned && not (looks_like_ephemeral_runner_name ev.runner_name)) _ _ (λ _. tt)
                (λ ours.
                  record_completion-Ensures labels _ action selection
                    (inr (owned, _, ground arith, refl)))
        ],
      )
    ],
  )

  with_labels-Ensures :
      (go : List Text → Prog Response) (past : History)
      → ((labels : List Text)
          → IsSelection h.label_policy ev.labels labels
          → Ensures P Any past (go labels))
      → (o : Checked (List Text) × Bool) → authorize_labels h.label_policy ev.labels ≡ o
      → Ensures P Any past (with_labels h q ev name go o)
  unfolding with_labels
  with_labels-Ensures go past next (result, false) e = tt
  with_labels-Ensures go past next (refused f, true) e = tt
  with_labels-Ensures go past next (accepted labels, true) e =
      next labels (authorize_labels-IsSelection h.label_policy ev.labels labels e)

  dispatch-Ensures : (past : History) → Ensures P Any past (dispatch h q ev name)
  unfolding dispatch
  dispatch-Ensures past =
      Ensures-if P Any past (text_eq ev.action (codes "queued")) _ _
        (λ is_queued.
          with_labels-Ensures (queued h q ev name) past
            (λ labels. queued-Ensures labels past ((text_eq_iff _ _).0 is_queued)) _ refl)
        (λ _.
          Ensures-if P Any past (text_eq ev.action (codes "completed")) _ _
            (λ is_completed.
              with_labels-Ensures (λ _. completed h q ev name) past
                (λ labels. completed-Ensures labels past ((text_eq_iff _ _).0 is_completed)) _ refl)
            (λ _. tt))

module _ (h : Handler) (decode : Text → Option WorkflowJobEvent) (q : Request) where
  abbrev Allowed : History → Call → Type 0
  Allowed = IsAuthorized h decode q

  route-Ensures :
      (body : Text) (ev : WorkflowJobEvent) (past : History)
      → (IsServed h ev.repo → IsGenuine h decode q body ev)
      → (o : Checked (Text × Bool)) → validate_repository h ev.repo ≡ o
      → Ensures Allowed Any past (route h decode q ev o)
  unfolding route
  route-Ensures body ev past genuine (refused f) e = tt
  route-Ensures body ev past genuine (accepted (name', false)) e = tt
  route-Ensures body ev past genuine (accepted (name', true)) e =
      let (served, named) = validate_repository-IsServed h ev.repo name' e in
      subst (λ n. Ensures Allowed Any past (dispatch h q ev n)) (sym named)
        (dispatch-Ensures h decode q body ev (genuine served) past)

  handle_event-Ensures :
      (body : Text) (past : History)
      → ((ev : WorkflowJobEvent)
          → decode body ≡ some ev
          → ev.installation_id ≡ h.installation_id
          → IsServed h ev.repo
          → IsGenuine h decode q body ev)
      → (o : Option WorkflowJobEvent) → decode body ≡ o
      → Ensures Allowed Any past (handle_event h decode q o)
  unfolding handle_event
  handle_event-Ensures body past genuine none e = tt
  handle_event-Ensures body past genuine (some ev) e =
      Ensures-if Allowed Any past (not (ev.installation_id == h.installation_id)) _ _ (λ _. tt)
        (λ same. route-Ensures body ev past (genuine ev e (ground arith)) _ refl)

  handle_body-Ensures :
      (past : History) (o : Option Text)
      → q.method ≡ codes "POST"
      → q.body ≡ o
      → Ensures Allowed Any past (handle_body h decode q o)
  unfolding handle_body
  handle_body-Ensures past none post e = tt
  handle_body-Ensures past (some body) post e =
      Ensures-if Allowed Any past (not (verify_webhook_signature h body q.signature)) _ _ (λ _. tt)
        (λ signed.
          Ensures-if Allowed Any past (not (text_eq q.event_type (codes "workflow_job"))) _ _
            (λ _. tt)
            (λ typed. (
              tt,
              λ admitted.
                  Ensures-if Allowed Any (event ingest_slot admitted ∷ past) admitted _ _
                    (λ _.
                      handle_event-Ensures body _
                        (λ ev decoded installation served. record {
                          is_post = post;
                          has_body = e;
                          signed = ground arith;
                          is_workflow_job = (text_eq_iff _ _).0 (ground arith);
                          decoded = decoded;
                          installation = installation;
                          served = served;
                        })
                        _ refl)
                    (λ _. tt),
            )))

  serve_http-Ensures : (past : History) → Ensures Allowed Any past (serve_http h decode q)
  unfolding serve_http
  serve_http-Ensures past =
      Ensures-if Allowed Any past (not (text_eq q.method (codes "POST"))) _ _ (λ _. tt)
        (λ post. handle_body-Ensures past q.body ((text_eq_iff _ _).0 (ground arith)) refl)

-- In every environment, `ServeHTTP` creates a record only for a POST request with a valid signature
-- whose body decodes to a `queued` event of this installation, for a repository on the allowlist
-- (and on the public one unless it is private), with labels of which each is allowed and one is the
-- required one, and a valid delivery ID; the record is made of that event, and GitHub has just
-- vouched for the run unless the repository is private and no public one is served. It records a
-- completion only for such a `completed` event, of a job that the store knows or of a runner that
-- the store owns or that is named like ours. It changes the store in no other way.
pub serve_http-IsAuthorized :
    (h : Handler) (decode : Text → Option WorkflowJobEvent) (q : Request) (env : Environment)
    → EveryCall (IsAuthorized h decode q) (run env [] (serve_http h decode q)).0
serve_http-IsAuthorized h decode q env =
    (Ensures-run _ Any env [] (serve_http h decode q) (serve_http-Ensures h decode q []) tt).0
