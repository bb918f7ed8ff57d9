-- ===== src/GitHub/Runners/Answers.antt =====
-- internal/github/runner.go: what the client says of runners, and on which reply of GitHub.
use github_runners_infra.Prelude.{
  ℕ, not, [], ◌∷◌, Text, codes, text_eq, text_eq_iff, ◌==◌, ◌≡◌, ◌≢◌, inl, inr, refl, arith,
}
use github_runners_infra.Webhook.Calls.{RunnerStatus, runner_missing, runner_offline, runner_online}
use github_runners_infra.Webhook.Failure.{Outcome, good, bad, wrap, Outcome-cases}
use github_runners_infra.Program.{run}
use github_runners_infra.Program.Rules.{Ensures, EveryCall, Ensures-run, Ensures-if}
use github_runners_infra.GitHub.Http.{
  Reply, Request, RunnerBody, Library, Call, send, History, Environment, event,
}
use github_runners_infra.GitHub.Token.{Cache}
use github_runners_infra.GitHub.Scope.{App}
use github_runners_infra.GitHub.Token.Granted.{IsSound}
use github_runners_infra.GitHub.Token.Used.{
  Allowed, Answered, Ends, refuse-Ensures, request-Ensures,
}
use github_runners_infra.Program.Rules.{if_intro}
use github_runners_infra.GitHub.Runners.{
  shown_status, read_status, after_status, status_request, repo_runner_status,
}

-- The reply shows the runner, online exactly as told.
abbrev pub ShowsRunner : Library → ℕ → RunnerStatus → Reply → Type 0
ShowsRunner lib runner_id runner_missing reply = reply.status ≡ 404
ShowsRunner lib runner_id runner_online reply =
    (runner : RunnerBody) × (reply.status ≡ 200)
    × (lib.decode_runner reply.body ≡ good runner)
    × (runner.id ≡ runner_id)
    × (runner.status ≡ codes "online")
ShowsRunner lib runner_id runner_offline reply =
    (runner : RunnerBody) × (reply.status ≡ 200)
    × (lib.decode_runner reply.body ≡ good runner)
    × (runner.id ≡ runner_id)
    × (runner.status ≢ codes "online")

module _ (lib : Library) (app : App) (owner repo : Text) (runner_id : ℕ) where
  abbrev status_of : Text → Request
  status_of = status_request owner repo runner_id

  abbrev P : History → Call → Type 0
  P = Allowed lib app status_of

  abbrev Q : History → Outcome RunnerStatus → Type 0
  Q = Answered lib app status_of (ShowsRunner lib runner_id)

  shown_status-Q :
      (before : History) (token : Text) (reply : Reply) (runner : RunnerBody)
      → reply.status ≡ 200
      → lib.decode_runner reply.body ≡ good runner
      → Q (event (send (status_of token)) (good reply) ∷ before) (shown_status runner_id runner)
  unfolding shown_status
  shown_status-Q before token reply runner ok decoded =
      let past = event (send (status_of token)) (good reply) ∷ before in
      if_intro (Q past) (not (runner.id == runner_id)) _ _ (λ other. tt)
        (λ same.
          if_intro (Q past) (text_eq runner.status (codes "online")) _ _
            (λ online. (
              token,
              reply,
              before,
              refl,
              (
                runner,
                ok,
                decoded,
                ground arith,
                (text_eq_iff runner.status (codes "online")).0 online,
              ),
            ))
            (λ offline. (
              token,
              reply,
              before,
              refl,
              (
                runner,
                ok,
                decoded,
                ground arith,
                λ e. ground (arith, text_eq_iff runner.status (codes "online"), e),
              ),
            )))

  after_status-Ensures :
      (before : History) (token : Text) (answer : Outcome Reply)
      → Ensures P Q
          (event (send (status_of token)) answer ∷ before)
          (after_status lib runner_id answer)
  unfolding after_status read_status
  after_status-Ensures before token (bad e) = tt
  after_status-Ensures before token (good reply) =
      let past = event (send (status_of token)) (good reply) ∷ before in
      Ensures-if P Q past (reply.status == 404) _ _
        (λ missing. (token, reply, before, refl, ground arith))
        (λ found.
          Ensures-if P Q past (reply.status == 200) _ _
            (λ ok. elim (Outcome-cases (lib.decode_runner reply.body)) [
              | inl (runner, e) ↦ rw e (shown_status-Q before token reply runner (ground arith) e)
              | inr (failure, e) ↦ rw e tt
            ])
            (λ other. refuse-Ensures lib app status_of (ShowsRunner lib runner_id) past reply _))

  -- In every environment, from a sound cache of tokens, `RepoRunnerStatus` asks only for a token with the
  -- scope of the allowlist and, with a usable one, for this runner; it says that the runner is
  -- missing only if the last reply was 404, and that it is online (or offline) only if that was a
  -- 200 whose body shows this runner with the status `online` (or another). The cache stays sound.
  pub repo_runner_status-Shows :
      (cache : Cache) (env : Environment)
      → IsSound app cache
      → EveryCall P (run env [] (repo_runner_status lib app cache owner repo runner_id)).0
        × Ends lib app status_of
            (ShowsRunner lib runner_id)
            (run env [] (repo_runner_status lib app cache owner repo runner_id)).0
            (run env [] (repo_runner_status lib app cache owner repo runner_id)).1
  unfolding repo_runner_status
  repo_runner_status-Shows cache env sound =
      Ensures-run P (Ends lib app status_of (ShowsRunner lib runner_id)) env []
        (repo_runner_status lib app cache owner repo runner_id)
        (request-Ensures lib app status_of (ShowsRunner lib runner_id) cache
          (wrap (codes "get installation token")) (after_status lib runner_id) [] sound
          after_status-Ensures)
        tt
