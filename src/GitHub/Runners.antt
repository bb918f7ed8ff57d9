-- ===== src/GitHub/Runners.antt =====
-- internal/github/runner.go: the calls about the runners of a repository.
pub mod Answers
pub mod Registrations
use github_runners_infra.Prelude.{
  ℕ, ◌||◌, ◌&&◌, not, none, some, List, Text, ◌++◌, codes, itoa, text_eq, is_empty, ◌==◌,
  if◌then◌else◌,
}
use github_runners_infra.Webhook.Calls.{
  RunnerStatus, runner_missing, runner_offline, runner_online, JitConfig,
}
use github_runners_infra.Webhook.Failure.{Outcome, good, bad, wrap, new_error}
use github_runners_infra.Program.{done, ◌>>=◌}
use github_runners_infra.GitHub.Http.{
  Reply, Request, empty, jit_config, RunnerBody, JitBody, Library, Prog, call, send, authorized,
}
use github_runners_infra.GitHub.Endpoints.{runner_url, jit_url}
use github_runners_infra.GitHub.Errors.{api_status_error}
use github_runners_infra.GitHub.Token.{Cache, with_token}
use github_runners_infra.GitHub.Scope.{App}

-- The error of a reply with another status.
unfoldable pub refuse : {A : Type 0} → Library → Reply → Text → Prog (Outcome A)
unfolding api_status_error
refuse lib reply action = api_status_error lib reply action >>= λ e. done (bad e)

-- The runner that the reply shows.
unfoldable pub shown_status : ℕ → RunnerBody → Outcome RunnerStatus
shown_status runner_id runner =
    if not (runner.id == runner_id)
    then bad (
        new_error (
          codes "GitHub returned runner ID "
          ++ (itoa runner.id ++ (codes " while querying " ++ itoa runner_id))))
    else if text_eq runner.status (codes "online")
    then good runner_online
    else good runner_offline

unfoldable pub read_status : Library → ℕ → Reply → Prog (Outcome RunnerStatus)
unfolding shown_status refuse
read_status lib runner_id reply =
    if reply.status == 404
    then done (good runner_missing)
    else if reply.status == 200
    then elim (lib.decode_runner reply.body) [
      | good runner ↦ done (shown_status runner_id runner)
      | bad e ↦ done (bad (wrap (codes "decode repository runner status") e))
    ]
    else refuse lib reply (codes "getting repository runner " ++ itoa runner_id)

unfoldable pub after_status : Library → ℕ → Outcome Reply → Prog (Outcome RunnerStatus)
unfolding read_status
after_status lib runner_id (good reply) = read_status lib runner_id reply
after_status lib runner_id (bad e) = done (bad (wrap (codes "get repository runner status") e))

unfoldable pub status_request : Text → Text → ℕ → Text → Request
status_request owner repo runner_id token =
    authorized (codes "GET") (runner_url owner repo runner_id) token empty

-- `RepoRunnerStatus`
unfoldable pub repo_runner_status :
    Library → App → Cache → Text → Text → ℕ → Prog (Outcome RunnerStatus × Cache)
unfolding with_token status_request after_status
repo_runner_status lib app cache owner repo runner_id =
    with_token lib app cache (wrap (codes "get installation token")) (λ token.
      call (send (status_request owner repo runner_id token)) >>= after_status lib runner_id)

-- The checks of the configuration that GitHub returned.
unfoldable pub check_jit : Library → JitBody → Outcome JitConfig
check_jit lib result =
    let invalid =
      bad (new_error (codes "GitHub returned an invalid base64 repository JIT config")) in
    if result.runner_id == 0 || is_empty result.encoded_jit_config
    then bad (new_error (codes "GitHub returned an incomplete repository JIT config"))
    else elim (lib.base64_decode result.encoded_jit_config) [
      | none ↦ invalid
      | some decoded ↦
          if is_empty decoded || not (text_eq (lib.base64_encode decoded) result.encoded_jit_config)
          then invalid
          else good
              (record { runner_id = result.runner_id; encoded_config = result.encoded_jit_config })
    ]

unfoldable pub read_jit : Library → Reply → Prog (Outcome JitConfig)
unfolding check_jit refuse
read_jit lib reply =
    if reply.status == 201
    then elim (lib.decode_jit reply.body) [
      | good result ↦ done (check_jit lib result)
      | bad e ↦ done (bad (wrap (codes "decode repository JIT config") e))
    ]
    else refuse lib reply (codes "requesting repository JIT config")

unfoldable pub after_jit : Library → Outcome Reply → Prog (Outcome JitConfig)
unfolding read_jit
after_jit lib (good reply) = read_jit lib reply
after_jit lib (bad e) = done (bad (wrap (codes "request repository JIT config") e))

unfoldable pub jit_request : Text → Text → Text → ℕ → List Text → Text → Request
jit_request owner repo name runner_group_id labels token =
    authorized (codes "POST") (jit_url owner repo) token
      (jit_config name runner_group_id labels (codes "_work"))

-- `GenerateRepoJITConfig`
unfoldable pub generate_repo_jit_config :
    Library → App → Cache → Text → Text → Text → ℕ → List Text → Prog (Outcome JitConfig × Cache)
unfolding with_token jit_request after_jit
generate_repo_jit_config lib app cache owner repo name runner_group_id labels =
    with_token lib app cache (wrap (codes "get installation token")) (λ token.
      call (send (jit_request owner repo name runner_group_id labels token)) >>= after_jit lib)

unfoldable pub read_removal : Library → ℕ → Reply → Prog (Outcome (Unit {0}))
unfolding refuse
read_removal lib runner_id reply =
    if not (reply.status == 204) && not (reply.status == 404)
    then refuse lib reply (codes "removing repository runner " ++ itoa runner_id)
    else done (good tt)

unfoldable pub after_removal : Library → ℕ → Outcome Reply → Prog (Outcome (Unit {0}))
unfolding read_removal
after_removal lib runner_id (good reply) = read_removal lib runner_id reply
after_removal lib runner_id (bad e) = done (bad (wrap (codes "remove repository runner") e))

unfoldable pub removal_request : Text → Text → ℕ → Text → Request
removal_request owner repo runner_id token =
    authorized (codes "DELETE") (runner_url owner repo runner_id) token empty

-- `RemoveRepoRunner`
unfoldable pub remove_repo_runner :
    Library → App → Cache → Text → Text → ℕ → Prog (Outcome (Unit {0}) × Cache)
unfolding with_token removal_request after_removal
remove_repo_runner lib app cache owner repo runner_id =
    with_token lib app cache (wrap (codes "get installation token")) (λ token.
      call (send (removal_request owner repo runner_id token)) >>= after_removal lib runner_id)
