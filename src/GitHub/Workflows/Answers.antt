-- ===== src/GitHub/Workflows/Answers.antt =====
-- internal/github/job.go and workflow.go: what the client says of jobs and runs, and on which reply.
use github_runners_infra.Prelude.{
  ℕ, not, [], ◌∷◌, Text, codes, text_eq_iff, ◌==◌, ◌≡◌, inl, inr, refl, arith, some, Option-cases,
}
use github_runners_infra.Webhook.Calls.{JobStatus, job_queued, job_in_progress, job_completed}
use github_runners_infra.Webhook.Failure.{Outcome, good, bad, wrap, Outcome-cases}
use github_runners_infra.Program.{run}
use github_runners_infra.Program.Rules.{Ensures, EveryCall, Ensures-run, Ensures-if}
use github_runners_infra.GitHub.Http.{
  Reply, Request, JobBody, Library, Call, send, History, Environment, event,
}
use github_runners_infra.GitHub.Token.{Cache}
use github_runners_infra.GitHub.Scope.{App}
use github_runners_infra.GitHub.Token.Granted.{IsSound}
use github_runners_infra.GitHub.Token.Used.{
  Allowed, Answered, Ends, refuse-Ensures, request-Ensures,
}
use github_runners_infra.Program.Rules.{if_intro}
use github_runners_infra.GitHub.Workflows.{
  job_status_of, shown_job, read_job, after_job, job_request, workflow_job_status,
}

-- GitHub's name of a status.
abbrev pub status_name : JobStatus → Text
status_name job_queued = codes "queued"
status_name job_in_progress = codes "in_progress"
status_name job_completed = codes "completed"

-- The reply shows the job with this status.
abbrev pub ShowsJob : Library → ℕ → JobStatus → Reply → Type 0
ShowsJob lib job_id status reply =
    (job : JobBody) × (reply.status ≡ 200)
    × (lib.decode_job reply.body ≡ good job)
    × (job.id ≡ job_id)
    × (job.status ≡ status_name status)

job_status_of-name :
    (name : Text) (status : JobStatus)
    → job_status_of name ≡ some status
    → name ≡ status_name status
unfolding job_status_of
job_status_of-name name job_queued e = ground (arith, text_eq_iff name (codes "queued"))
job_status_of-name name job_in_progress e = ground (arith, text_eq_iff name (codes "in_progress"))
job_status_of-name name job_completed e = ground (arith, text_eq_iff name (codes "completed"))

module _ (lib : Library) (app : App) (owner repo : Text) (job_id : ℕ) where
  abbrev job_of : Text → Request
  job_of = job_request owner repo job_id

  abbrev P : History → Call → Type 0
  P = Allowed lib app job_of

  abbrev Q : History → Outcome JobStatus → Type 0
  Q = Answered lib app job_of (ShowsJob lib job_id)

  shown_job-Q :
      (before : History) (token : Text) (reply : Reply) (job : JobBody)
      → reply.status ≡ 200
      → lib.decode_job reply.body ≡ good job
      → Q (event (send (job_of token)) (good reply) ∷ before) (shown_job job_id job)
  unfolding shown_job
  shown_job-Q before token reply job ok decoded =
      let past = event (send (job_of token)) (good reply) ∷ before in
      if_intro (Q past) (not (job.id == job_id)) _ _ (λ other. tt)
        (λ same. elim (Option-cases (job_status_of job.status)) [
          | inl e ↦ rw e tt
          | inr (status, e) ↦ rw e (
            token,
            reply,
            before,
            refl,
            (job, ok, decoded, ground arith, job_status_of-name job.status status e),
          )
        ])

  after_job-Ensures :
      (before : History) (token : Text) (answer : Outcome Reply)
      → Ensures P Q (event (send (job_of token)) answer ∷ before) (after_job lib job_id answer)
  unfolding after_job read_job
  after_job-Ensures before token (bad e) = tt
  after_job-Ensures before token (good reply) =
      let past = event (send (job_of token)) (good reply) ∷ before in
      Ensures-if P Q past (reply.status == 200) _ _
        (λ ok. elim (Outcome-cases (lib.decode_job reply.body)) [
          | inl (job, e) ↦ rw e (shown_job-Q before token reply job (ground arith) e)
          | inr (failure, e) ↦ rw e tt
        ])
        (λ other. refuse-Ensures lib app job_of (ShowsJob lib job_id) past reply _)

  workflow_job_status-Ensures :
      (cache : Cache)
      → IsSound app cache
      → Ensures P
          (Ends lib app job_of (ShowsJob lib job_id))
          []
          (workflow_job_status lib app cache owner repo job_id)
  unfolding workflow_job_status
  workflow_job_status-Ensures cache sound =
      Ensures-if P (Ends lib app job_of (ShowsJob lib job_id)) [] (job_id == 0) _ _
        (λ z. (tt, sound))
        (λ nz.
          Ensures-if P (Ends lib app job_of (ShowsJob lib job_id)) [] (not app.read_workflow_runs) _
            _ (λ unread. (tt, sound))
            (λ reads.
              request-Ensures lib app job_of (ShowsJob lib job_id) cache
                (wrap (codes "get job status installation token")) (after_job lib job_id) [] sound
                after_job-Ensures))

  -- In every environment, from a sound cache of tokens, `WorkflowJobStatus` asks only for a token with
  -- the scope of the allowlist and, with a usable one, for this job; it answers a status only if
  -- the last reply was a 200 whose body shows this job with that status. The cache stays sound.
  pub workflow_job_status-Shows :
      (cache : Cache) (env : Environment)
      → IsSound app cache
      → EveryCall P (run env [] (workflow_job_status lib app cache owner repo job_id)).0
        × Ends lib app job_of
            (ShowsJob lib job_id)
            (run env [] (workflow_job_status lib app cache owner repo job_id)).0
            (run env [] (workflow_job_status lib app cache owner repo job_id)).1
  workflow_job_status-Shows cache env sound =
      Ensures-run P (Ends lib app job_of (ShowsJob lib job_id)) env []
        (workflow_job_status lib app cache owner repo job_id)
        (workflow_job_status-Ensures cache sound) tt
