-- ===== src/GitHub/Runners/Registrations.antt =====
-- internal/github/runner.go: which registrations the client accepts, and when one is removed.
use github_runners_infra.Prelude.{
  ℕ, not, ◌&&◌, ◌||◌, List, [], ◌∷◌, some, Option-cases, Text, codes, text_eq, text_eq_iff,
  is_empty, ◌==◌, ◌≡◌, ◌≢◌, ◌⊎◌, inl, inr, refl, arith,
}
use github_runners_infra.Webhook.Calls.{JitConfig}
use github_runners_infra.Webhook.Failure.{Outcome, good, bad, wrap, Outcome-cases}
use github_runners_infra.Program.{run}
use github_runners_infra.Program.Rules.{Ensures, EveryCall, Ensures-run, Ensures-if}
use github_runners_infra.GitHub.Http.{
  Reply, Request, JitBody, Library, Call, send, History, Environment, event,
}
use github_runners_infra.GitHub.Token.{Cache}
use github_runners_infra.GitHub.Scope.{App}
use github_runners_infra.GitHub.Token.Granted.{IsSound}
use github_runners_infra.GitHub.Token.Used.{
  Allowed, Answered, Ends, refuse-Ensures, request-Ensures,
}
use github_runners_infra.Program.Rules.{if_intro}
use github_runners_infra.GitHub.Runners.{
  check_jit, read_jit, after_jit, jit_request, generate_repo_jit_config, read_removal,
  after_removal, removal_request, remove_repo_runner,
}

-- The reply has the configuration, which is valid base64.
abbrev pub ShowsJit : Library → JitConfig → Reply → Type 0
ShowsJit lib jit reply =
    (body : JitBody) × (decoded : Text) × (reply.status ≡ 201)
    × (lib.decode_jit reply.body ≡ good body)
    × (body.runner_id ≡ jit.runner_id)
    × (body.encoded_jit_config ≡ jit.encoded_config)
    × (jit.runner_id ≢ 0)
    × (jit.encoded_config ≢ [])
    × (lib.base64_decode jit.encoded_config ≡ some decoded)
    × (decoded ≢ [])
    × (lib.base64_encode decoded ≡ jit.encoded_config)

module _ (lib : Library) (app : App) (owner repo name : Text) (runner_group_id : ℕ)
    (labels : List Text) where
  abbrev jit_of : Text → Request
  jit_of = jit_request owner repo name runner_group_id labels

  abbrev JitP : History → Call → Type 0
  JitP = Allowed lib app jit_of

  abbrev JitQ : History → Outcome JitConfig → Type 0
  JitQ = Answered lib app jit_of (ShowsJit lib)

  check_jit-Q :
      (before : History) (token : Text) (reply : Reply) (body : JitBody)
      → reply.status ≡ 201
      → lib.decode_jit reply.body ≡ good body
      → JitQ (event (send (jit_of token)) (good reply) ∷ before) (check_jit lib body)
  unfolding check_jit
  check_jit-Q before token reply body ok decodes =
      let past = event (send (jit_of token)) (good reply) ∷ before in
      if_intro (JitQ past) (body.runner_id == 0 || is_empty body.encoded_jit_config) _ _
        (λ incomplete. tt)
        (λ complete. elim (Option-cases (lib.base64_decode body.encoded_jit_config)) [
          | inl e ↦ rw e tt
          | inr (decoded, e) ↦ rw e (
              if_intro (JitQ past)
                (is_empty decoded
                  || not (text_eq (lib.base64_encode decoded) body.encoded_jit_config))
                _ _ (λ invalid. tt)
                (λ valid. (
                  token,
                  reply,
                  before,
                  refl,
                  (
                    body,
                    decoded,
                    ok,
                    decodes,
                    refl,
                    refl,
                    (λ z. ground (arith, z)),
                    (λ z. ground (arith, z)),
                    e,
                    (λ z. ground (arith, z)),
                    ground (arith, text_eq_iff (lib.base64_encode decoded) body.encoded_jit_config),
                  ),
                )))
        ])

  after_jit-Ensures :
      (before : History) (token : Text) (answer : Outcome Reply)
      → Ensures JitP JitQ (event (send (jit_of token)) answer ∷ before) (after_jit lib answer)
  unfolding after_jit read_jit
  after_jit-Ensures before token (bad e) = tt
  after_jit-Ensures before token (good reply) =
      let past = event (send (jit_of token)) (good reply) ∷ before in
      Ensures-if JitP JitQ past (reply.status == 201) _ _
        (λ ok. elim (Outcome-cases (lib.decode_jit reply.body)) [
          | inl (body, e) ↦ rw e (check_jit-Q before token reply body (ground arith) e)
          | inr (failure, e) ↦ rw e tt
        ])
        (λ other. refuse-Ensures lib app jit_of (ShowsJit lib) past reply _)

  -- In every environment, from a sound cache of tokens, `GenerateRepoJITConfig` asks only for a token with
  -- the scope of the allowlist and, with a usable one, for one registration with this name, group
  -- and labels; it answers a configuration only if the last reply was a 201 that has it, with a
  -- runner ID and in canonical base64 of at least one byte. The cache stays sound.
  pub generate_repo_jit_config-Shows :
      (cache : Cache) (env : Environment)
      → IsSound app cache
      → EveryCall JitP
          (run env []
            (generate_repo_jit_config lib app cache owner repo name runner_group_id labels)).0
        × Ends lib app jit_of
            (ShowsJit lib)
            (run env []
              (generate_repo_jit_config lib app cache owner repo name runner_group_id labels)).0
            (run env []
              (generate_repo_jit_config lib app cache owner repo name runner_group_id labels)).1
  unfolding generate_repo_jit_config
  generate_repo_jit_config-Shows cache env sound =
      Ensures-run JitP (Ends lib app jit_of (ShowsJit lib)) env []
        (generate_repo_jit_config lib app cache owner repo name runner_group_id labels)
        (request-Ensures lib app jit_of (ShowsJit lib) cache (wrap (codes "get installation token"))
          (after_jit lib) [] sound after_jit-Ensures)
        tt

-- The runner was removed, or there is none.
abbrev pub ShowsRemoval : Unit {0} → Reply → Type 0
ShowsRemoval _ reply = (reply.status ≡ 204) ⊎ (reply.status ≡ 404)

module _ (lib : Library) (app : App) (owner repo : Text) (runner_id : ℕ) where
  abbrev removal_of : Text → Request
  removal_of = removal_request owner repo runner_id

  abbrev RemovalP : History → Call → Type 0
  RemovalP = Allowed lib app removal_of

  abbrev RemovalQ : History → Outcome (Unit {0}) → Type 0
  RemovalQ = Answered lib app removal_of ShowsRemoval

  after_removal-Ensures :
      (before : History) (token : Text) (answer : Outcome Reply)
      → Ensures RemovalP RemovalQ
          (event (send (removal_of token)) answer ∷ before)
          (after_removal lib runner_id answer)
  unfolding after_removal read_removal
  after_removal-Ensures before token (bad e) = tt
  after_removal-Ensures before token (good reply) =
      let past = event (send (removal_of token)) (good reply) ∷ before in
      Ensures-if RemovalP RemovalQ past (not (reply.status == 204) && not (reply.status == 404)) _ _
        (λ other. refuse-Ensures lib app removal_of ShowsRemoval past reply _)
        (λ removed. (token, reply, before, refl, ground arith))

  -- In every environment, from a sound cache of tokens, `RemoveRepoRunner` asks only for a token with the
  -- scope of the allowlist and, with a usable one, for the removal of this runner; it succeeds only
  -- if the last reply was 204 or 404. The cache stays sound.
  pub remove_repo_runner-Shows :
      (cache : Cache) (env : Environment)
      → IsSound app cache
      → EveryCall RemovalP (run env [] (remove_repo_runner lib app cache owner repo runner_id)).0
        × Ends lib app removal_of ShowsRemoval
            (run env [] (remove_repo_runner lib app cache owner repo runner_id)).0
            (run env [] (remove_repo_runner lib app cache owner repo runner_id)).1
  unfolding remove_repo_runner
  remove_repo_runner-Shows cache env sound =
      Ensures-run RemovalP (Ends lib app removal_of ShowsRemoval) env []
        (remove_repo_runner lib app cache owner repo runner_id)
        (request-Ensures lib app removal_of ShowsRemoval cache
          (wrap (codes "get installation token")) (after_removal lib runner_id) [] sound
          after_removal-Ensures)
        tt
