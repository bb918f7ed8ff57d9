-- ===== src/Examples/Clients.antt =====
-- The GitHub client at concrete inputs.
use github_runners_infra.Prelude.{
  ◌+◌, ◌<◌, ◌≤◌, ◌*◌, true, false, none, some, [], ◌∷◌, codes, text_eq, itoa, split_text, to_lower,
  mem, join_texts, equal_fold, ◌≡◌, ◌⊎◌, inl, refl, arith, if◌then◌else◌,
}
use github_runners_infra.Dict.{get}
use github_runners_infra.Store.Claim.{sort_keys}
use github_runners_infra.Webhook.Names.{trim_space}
use github_runners_infra.Program.{run}
use github_runners_infra.Program.Rules.{EveryCall}
use github_runners_infra.Webhook.Limits.{second, minute}
use github_runners_infra.Webhook.Failure.{good, bad, new_error}
use github_runners_infra.GitHub.Http.{
  Headers, Reply, Library, RunBody, TokenBody, rsa, Call, Answer, time_now, send, Environment,
  authorized,
}
use github_runners_infra.GitHub.Endpoints.ReadBack.{read_endpoint, read_endpoint-urls}
use github_runners_infra.GitHub.Endpoints.{runner_url, job_url, run_url}
use github_runners_infra.GitHub.Errors.{retry_at_from_headers, api_status_error}
use github_runners_infra.GitHub.Errors.Retry.{retry_at-wraps}
use github_runners_infra.GitHub.Token.{Cache, installation_token}
use github_runners_infra.GitHub.Scope.{App, token_scope_of}
use github_runners_infra.GitHub.Token.Granted.{IsToken, MaySend}
use github_runners_infra.GitHub.Token.Used.{Allowed, Ends, installation_token-IsToken}
use github_runners_infra.GitHub.Runners.{
  status_request, repo_runner_status, jit_request, generate_repo_jit_config, removal_request,
  remove_repo_runner,
}
use github_runners_infra.GitHub.Runners.Answers.{ShowsRunner, repo_runner_status-Shows}
use github_runners_infra.GitHub.Runners.Registrations.{
  ShowsJit, generate_repo_jit_config-Shows, ShowsRemoval, remove_repo_runner-Shows,
}
use github_runners_infra.GitHub.Workflows.{
  job_request, workflow_job_status, run_request, trusted_workflow_run,
}
use github_runners_infra.GitHub.Workflows.Answers.{ShowsJob, workflow_job_status-Shows}
use github_runners_infra.GitHub.Workflows.Trusted.{Decides, trusted_workflow_run-Decides}
use github_runners_infra.GitHub.Errors.Classes.{IsClassified, api_status_error-IsClassified}
use github_runners_infra.GitHub.Scope.Allowlist.{IsAllowlist, token_scope_of-IsAllowlist}

abbrev no_headers : Headers
no_headers = record { retry_after = []; rate_limit_remaining = []; rate_limit_reset = [] }

abbrev a_run : RunBody
a_run = record {
  id = 9;
  run_event = codes "push";
  repository_id = 4;
  repository_name = codes "acme/site";
  head_id = 4;
  head_fork = false;
  head_name = codes "acme/site";
  pull_requests = [];
}

abbrev a_token : TokenBody
a_token = record {
  token = codes "ghs";
  expires_at = 90 * minute;
  permissions = (codes "administration", codes "write") ∷ (codes "actions", codes "read") ∷ [];
  repositories = codes "Acme/Site" ∷ [];
}

abbrev library : Library
library = record {
  decode_runner = λ _. good (record { id = 8; status = codes "online" });
  decode_jit = λ _. good (record { runner_id = 8; encoded_jit_config = codes "YQ==" });
  decode_job = λ _. good (record { id = 7; status = codes "queued" });
  decode_run = λ _. good a_run;
  decode_token = λ _. good a_token;
  base64_decode = λ s. some s;
  base64_encode = λ s. s;
  parse_http_time = λ _. none;
  format_time = λ _. [];
  pem_decode = λ s. some s;
  parse_pkcs1_private_key = λ s. bad (new_error s);
  parse_pkcs8_private_key = λ s. good (rsa s);
  signed_string = λ _ key. good key;
}

abbrev app : App
app = record {
  app_id = 1;
  installation_id = 3;
  private_key = codes "key";
  allowed_repositories = codes " acme/site" ∷ codes "Acme/Site" ∷ [];
  read_workflow_runs = true;
}

abbrev cold : Cache
cold = record { cached_token = []; token_expires = 0; cached_scope = [] }

-- Creates what it is asked for, and finds the rest.
abbrev answer : (c : Call) → Answer c
answer time_now = 60 * minute
answer (send q) = good (record {
  status = if text_eq q.method (codes "POST") then 201 else 200;
  headers = no_headers;
  body = [];
})

abbrev github : Environment
github past c = answer c

-- What the client answers.
answers_run :
    (run github [] (trusted_workflow_run library app cold (codes "acme") (codes "site") 9)).1.0
    ≡ good true
unfolding run trusted_workflow_run split_text to_lower trim_space codes mem text_eq authorized get
    join_texts sort_keys equal_fold
answers_run = refl

installation_token-IsToken_example :
    EveryCall (MaySend app (λ _ _. ⊥)) (run github [] (installation_token library app cold)).0
    × IsToken library app cold
        (run github [] (installation_token library app cold)).0
        (run github [] (installation_token library app cold)).1
installation_token-IsToken_example = installation_token-IsToken library app cold github (inl refl)

token_scope_of-IsAllowlist_example : IsAllowlist app (token_scope_of app)
token_scope_of-IsAllowlist_example = token_scope_of-IsAllowlist app

repo_runner_status-Shows_example :
    EveryCall
      (Allowed library app (status_request (codes "acme") (codes "site") 8))
      (run github [] (repo_runner_status library app cold (codes "acme") (codes "site") 8)).0
    × Ends library app
        (status_request (codes "acme") (codes "site") 8)
        (ShowsRunner library 8)
        (run github [] (repo_runner_status library app cold (codes "acme") (codes "site") 8)).0
        (run github [] (repo_runner_status library app cold (codes "acme") (codes "site") 8)).1
repo_runner_status-Shows_example =
    repo_runner_status-Shows library app (codes "acme") (codes "site") 8 cold github (inl refl)

generate_repo_jit_config-Shows_example :
    EveryCall
      (Allowed library app
        (jit_request (codes "acme") (codes "site") (codes "ghr-1") 1 (codes "linux" ∷ [])))
      (run github [] (
        generate_repo_jit_config library app cold
          (codes "acme")
          (codes "site")
          (codes "ghr-1")
          1
          (codes "linux" ∷ []))).0
    × Ends library app
        (jit_request (codes "acme") (codes "site") (codes "ghr-1") 1 (codes "linux" ∷ []))
        (ShowsJit library)
        (run github [] (
          generate_repo_jit_config library app cold
            (codes "acme")
            (codes "site")
            (codes "ghr-1")
            1
            (codes "linux" ∷ []))).0
        (run github [] (
          generate_repo_jit_config library app cold
            (codes "acme")
            (codes "site")
            (codes "ghr-1")
            1
            (codes "linux" ∷ []))).1
generate_repo_jit_config-Shows_example =
    generate_repo_jit_config-Shows library app (codes "acme") (codes "site") (codes "ghr-1") 1
      (codes "linux" ∷ []) cold github (inl refl)

remove_repo_runner-Shows_example :
    EveryCall
      (Allowed library app (removal_request (codes "acme") (codes "site") 8))
      (run github [] (remove_repo_runner library app cold (codes "acme") (codes "site") 8)).0
    × Ends library app
        (removal_request (codes "acme") (codes "site") 8)
        (ShowsRemoval)
        (run github [] (remove_repo_runner library app cold (codes "acme") (codes "site") 8)).0
        (run github [] (remove_repo_runner library app cold (codes "acme") (codes "site") 8)).1
remove_repo_runner-Shows_example =
    remove_repo_runner-Shows library app (codes "acme") (codes "site") 8 cold github (inl refl)

workflow_job_status-Shows_example :
    EveryCall
      (Allowed library app (job_request (codes "acme") (codes "site") 7))
      (run github [] (workflow_job_status library app cold (codes "acme") (codes "site") 7)).0
    × Ends library app
        (job_request (codes "acme") (codes "site") 7)
        (ShowsJob library 7)
        (run github [] (workflow_job_status library app cold (codes "acme") (codes "site") 7)).0
        (run github [] (workflow_job_status library app cold (codes "acme") (codes "site") 7)).1
workflow_job_status-Shows_example =
    workflow_job_status-Shows library app (codes "acme") (codes "site") 7 cold github (inl refl)

trusted_workflow_run-Decides_example :
    EveryCall
      (Allowed library app (run_request (codes "acme") (codes "site") 9))
      (run github [] (trusted_workflow_run library app cold (codes "acme") (codes "site") 9)).0
    × Decides library app
        (codes "acme")
        (codes "site")
        9
        (run github [] (trusted_workflow_run library app cold (codes "acme") (codes "site") 9)).0
        (run github [] (trusted_workflow_run library app cold (codes "acme") (codes "site") 9)).1
trusted_workflow_run-Decides_example =
    trusted_workflow_run-Decides library app (codes "acme") (codes "site") 9 cold github (inl refl)

abbrev throttled : Reply
throttled = record {
  status = 429;
  headers = record { retry_after = itoa 90; rate_limit_remaining = []; rate_limit_reset = [] };
  body = [];
}

api_status_error-IsClassified_example :
    IsClassified library throttled
      (run github [] (api_status_error library throttled (codes "asking"))).0
      (run github [] (api_status_error library throttled (codes "asking"))).1
api_status_error-IsClassified_example =
    api_status_error-IsClassified library throttled (codes "asking") github

retry_at-wraps_example :
    ((90 < 9223372037)
      × (retry_at_from_headers library minute throttled.headers ≡ minute + 90 * second))
    ⊎ ((9223372037 ≤ 90) × (retry_at_from_headers library minute throttled.headers < minute))
retry_at-wraps_example =
    retry_at-wraps library minute 90 throttled.headers (omega arith) (omega arith) refl

read_endpoint-urls_example :
    (read_endpoint (runner_url (codes "acme") (codes "a/b") 8)
      ≡ some (record {
        owner = codes "acme";
        repository = codes "a/b";
        kind = codes "runners";
        number = 8;
      }))
    × (read_endpoint (job_url (codes "acme") (codes "a/b") 8)
        ≡ some (record {
          owner = codes "acme";
          repository = codes "a/b";
          kind = codes "jobs";
          number = 8;
        }))
    × (read_endpoint (run_url (codes "acme") (codes "a/b") 8)
        ≡ some (record {
          owner = codes "acme";
          repository = codes "a/b";
          kind = codes "runs";
          number = 8;
        }))
unfolding codes
read_endpoint-urls_example =
    read_endpoint-urls (codes "acme") (codes "a/b") 8 (omega arith) (omega arith) (omega arith)
