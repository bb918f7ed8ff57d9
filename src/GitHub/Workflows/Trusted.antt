-- ===== src/GitHub/Workflows/Trusted.antt =====
-- internal/github/workflow.go: which runs the client trusts.
use github_runners_infra.Prelude.{
  ℕ, Bool, true, false, not, [], ◌∷◌, Text, ◌==◌, ◌≡◌, ◌↔◌, ◌⊎◌, inl, inr, refl, arith,
}
use github_runners_infra.Webhook.Failure.{Outcome, good, bad, Outcome-cases}
use github_runners_infra.Program.{run}
use github_runners_infra.Program.Rules.{Ensures, EveryCall, Ensures-run, Ensures-if, Ensures-weaken}
use github_runners_infra.GitHub.Http.{
  Reply, Request, RunBody, Library, Call, send, History, Environment, event,
}
use github_runners_infra.GitHub.Token.{Cache}
use github_runners_infra.GitHub.Scope.{App}
use github_runners_infra.GitHub.Token.Granted.{IsSound}
use github_runners_infra.GitHub.Token.Used.{
  Allowed, Answered, Ends, refuse-Ensures, request-Ensures,
}
use github_runners_infra.GitHub.Workflows.Origin.{
  IsTrusted, is_trusted-IsTrusted, IsTrusted-is_trusted,
}
use github_runners_infra.GitHub.Workflows.{
  read_run, after_run, run_request, as_it_is, trusted_workflow_run,
}

-- The reply shows a run that is trusted exactly as told.
abbrev pub ShowsRun : Library → Text → Text → ℕ → Bool → Reply → Type 0
ShowsRun lib owner repo run_id trusted reply =
    (body : RunBody) × (reply.status ≡ 200)
    × (lib.decode_run reply.body ≡ good body)
    × ((trusted ≡ true) ↔ IsTrusted owner repo run_id body)

module _ (lib : Library) (app : App) (owner repo : Text) (run_id : ℕ) where
  abbrev run_of : Text → Request
  run_of = run_request owner repo run_id

  abbrev P : History → Call → Type 0
  P = Allowed lib app run_of

  abbrev Q : History → Outcome Bool → Type 0
  Q = Answered lib app run_of (ShowsRun lib owner repo run_id)

  after_run-Ensures :
      (before : History) (token : Text) (answer : Outcome Reply)
      → Ensures P Q
          (event (send (run_of token)) answer ∷ before)
          (after_run lib owner repo run_id answer)
  unfolding after_run read_run
  after_run-Ensures before token (bad e) = tt
  after_run-Ensures before token (good reply) =
      let past = event (send (run_of token)) (good reply) ∷ before in
      Ensures-if P Q past (reply.status == 200) _ _
        (λ ok. elim (Outcome-cases (lib.decode_run reply.body)) [
          | inl (body, e) ↦ rw e (
            token,
            reply,
            before,
            refl,
            (
              body,
              ground arith,
              e,
              (
                is_trusted-IsTrusted owner repo run_id body,
                IsTrusted-is_trusted owner repo run_id body,
              ),
            ),
          )
          | inr (failure, e) ↦ rw e tt
        ])
        (λ other. refuse-Ensures lib app run_of (ShowsRun lib owner repo run_id) past reply _)

  -- A run without an ID is not trusted, with no call.
  abbrev pub Decides : History → Outcome Bool × Cache → Type 0
  Decides past (answer, after) =
      (((run_id ≡ 0) × (answer ≡ good false)) ⊎ Q past answer) × IsSound app after

  trusted_workflow_run-Ensures :
      (cache : Cache)
      → IsSound app cache
      → Ensures P Decides [] (trusted_workflow_run lib app cache owner repo run_id)
  unfolding trusted_workflow_run
  trusted_workflow_run-Ensures cache sound =
      Ensures-if P Decides [] (run_id == 0) _ _ (λ z. (inl (ground arith, refl), sound))
        (λ nz.
          Ensures-if P Decides [] (not app.read_workflow_runs) _ _ (λ unread. (inr tt, sound))
            (λ reads.
              Ensures-weaken P P (Ends lib app run_of (ShowsRun lib owner repo run_id)) Decides [] _
                (λ _ _ p. p) (λ _ _ ends. (inr ends.0, ends.1))
                (request-Ensures lib app run_of (ShowsRun lib owner repo run_id) cache as_it_is
                  (after_run lib owner repo run_id) [] sound after_run-Ensures)))

  -- In every environment, from a sound cache of tokens, `TrustedWorkflowRun` asks only for a token with
  -- the scope of the allowlist and, with a usable one, for this run; it answers `true` exactly if the
  -- last reply was a 200 whose body shows this run, of this repository and from it, not a fork, and
  -- started by a push, a schedule, a dispatch or pull requests of which each is internal to the
  -- repository, where the ID is set and no error is answered. The cache stays sound.
  pub trusted_workflow_run-Decides :
      (cache : Cache) (env : Environment)
      → IsSound app cache
      → EveryCall P (run env [] (trusted_workflow_run lib app cache owner repo run_id)).0
        × Decides
            (run env [] (trusted_workflow_run lib app cache owner repo run_id)).0
            (run env [] (trusted_workflow_run lib app cache owner repo run_id)).1
  trusted_workflow_run-Decides cache env sound =
      Ensures-run P Decides env [] (trusted_workflow_run lib app cache owner repo run_id)
        (trusted_workflow_run-Ensures cache sound) tt
