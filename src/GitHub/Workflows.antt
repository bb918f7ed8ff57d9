-- ===== src/GitHub/Workflows.antt =====
-- internal/github/job.go and internal/github/workflow.go: the calls about jobs and runs.
pub mod Answers
pub mod Origin
pub mod Trusted
use github_runners_infra.Prelude.{
  ℕ, Bool, true, false, ◌||◌, ◌&&◌, not, Option, none, some, List, [], ◌∷◌, ◌++◌, Text, codes, itoa,
  text_eq, equal_fold, ◌==◌, if◌then◌else◌,
}
use github_runners_infra.Webhook.Calls.{JobStatus, job_queued, job_in_progress, job_completed}
use github_runners_infra.Webhook.Failure.{Failure, Outcome, good, bad, wrap, new_error}
use github_runners_infra.Program.{done, ◌>>=◌}
use github_runners_infra.GitHub.Http.{
  Reply, Request, empty, JobBody, RunBody, PullRequest, Library, Prog, call, send, authorized,
}
use github_runners_infra.GitHub.Endpoints.{job_url, run_url}
use github_runners_infra.GitHub.Token.{Cache, with_token}
use github_runners_infra.GitHub.Scope.{App}
use github_runners_infra.GitHub.Runners.{refuse}

-- The statuses that the client knows.
unfoldable pub job_status_of : Text → Option JobStatus
job_status_of status =
    if text_eq status (codes "queued")
    then some job_queued
    else if text_eq status (codes "in_progress")
    then some job_in_progress
    else if text_eq status (codes "completed")
    then some job_completed
    else none

unfoldable pub shown_job : ℕ → JobBody → Outcome JobStatus
unfolding job_status_of
shown_job job_id job =
    if not (job.id == job_id)
    then bad (
        new_error (
          codes "GitHub returned job ID "
          ++ (itoa job.id ++ (codes " while querying " ++ itoa job_id))))
    else elim (job_status_of job.status) [
      | some status ↦ good status
      | none ↦ bad (new_error (codes "GitHub returned an unsupported workflow job status"))
    ]

unfoldable pub read_job : Library → ℕ → Reply → Prog (Outcome JobStatus)
unfolding shown_job refuse
read_job lib job_id reply =
    if reply.status == 200
    then elim (lib.decode_job reply.body) [
      | good job ↦ done (shown_job job_id job)
      | bad e ↦ done (bad (wrap (codes "decode workflow job status") e))
    ]
    else refuse lib reply (codes "getting workflow job status")

unfoldable pub after_job : Library → ℕ → Outcome Reply → Prog (Outcome JobStatus)
unfolding read_job
after_job lib job_id (good reply) = read_job lib job_id reply
after_job lib job_id (bad e) = done (bad (wrap (codes "get workflow job status") e))

unfoldable pub job_request : Text → Text → ℕ → Text → Request
job_request owner repo job_id token =
    authorized (codes "GET") (job_url owner repo job_id) token empty

-- `WorkflowJobStatus`
unfoldable pub workflow_job_status :
    Library → App → Cache → Text → Text → ℕ → Prog (Outcome JobStatus × Cache)
unfolding with_token job_request after_job
workflow_job_status lib app cache owner repo job_id =
    if job_id == 0
    then done (bad (new_error (codes "workflow job ID must be positive")), cache)
    else if not app.read_workflow_runs
    then done (bad (new_error (codes "workflow job read scope is not configured")), cache)
    else with_token lib app cache (wrap (codes "get job status installation token"))
        (λ token. call (send (job_request owner repo job_id token)) >>= after_job lib job_id)

-- Each pull request of the run goes from the repository to itself.
unfoldable pub all_internal : ℕ → List PullRequest → Bool
all_internal repository_id [] = true
all_internal repository_id (pr ∷ rest) =
    not (
      pr.number == 0
      || not (pr.head_repository == repository_id)
      || not (pr.base_repository == repository_id))
    && all_internal repository_id rest

unfoldable pub are_internal : ℕ → List PullRequest → Bool
unfolding all_internal
are_internal repository_id [] = false
are_internal repository_id (pr ∷ rest) = all_internal repository_id (pr ∷ rest)

-- The end of `TrustedWorkflowRun`, by the trigger of the run.
unfoldable pub is_trusted_event : RunBody → Bool
unfolding are_internal
is_trusted_event run =
    if text_eq run.run_event (codes "pull_request")
    then are_internal run.repository_id run.pull_requests
    else text_eq run.run_event (codes "push")
      || text_eq run.run_event (codes "schedule")
      || text_eq run.run_event (codes "workflow_dispatch")

unfoldable pub is_trusted : Text → Text → ℕ → RunBody → Bool
unfolding is_trusted_event
is_trusted owner repo run_id run =
    let full_name = owner ++ (b'/' ∷ repo) in
    if not (run.id == run_id)
      || not (equal_fold run.repository_name full_name)
      || not (equal_fold run.head_name full_name)
    then false
    else if run.repository_id == 0 || not (run.head_id == run.repository_id) || run.head_fork
    then false
    else is_trusted_event run

unfoldable pub read_run : Library → Text → Text → ℕ → Reply → Prog (Outcome Bool)
unfolding is_trusted refuse
read_run lib owner repo run_id reply =
    if reply.status == 200
    then elim (lib.decode_run reply.body) [
      | good body ↦ done (good (is_trusted owner repo run_id body))
      | bad e ↦ done (bad e)
    ]
    else refuse lib reply (codes "verifying workflow run")

unfoldable pub after_run : Library → Text → Text → ℕ → Outcome Reply → Prog (Outcome Bool)
unfolding read_run
after_run lib owner repo run_id (good reply) = read_run lib owner repo run_id reply
after_run lib owner repo run_id (bad e) = done (bad (wrap (codes "verify workflow run") e))

unfoldable pub run_request : Text → Text → ℕ → Text → Request
run_request owner repo run_id token =
    authorized (codes "GET") (run_url owner repo run_id) token empty

unfoldable pub as_it_is : Failure → Failure
as_it_is e = e

-- `TrustedWorkflowRun`
unfoldable pub trusted_workflow_run :
    Library → App → Cache → Text → Text → ℕ → Prog (Outcome Bool × Cache)
unfolding with_token run_request after_run as_it_is
trusted_workflow_run lib app cache owner repo run_id =
    if run_id == 0
    then done (good false, cache)
    else if not app.read_workflow_runs
    then done (bad (new_error (codes "workflow run read scope is not configured")), cache)
    else with_token lib app cache as_it_is (λ token.
      call (send (run_request owner repo run_id token)) >>= after_run lib owner repo run_id)
