-- ===== src/Examples/Startup.antt =====
-- The start of the service at concrete inputs.
use github_runners_infra.Prelude.{
  pos, text_eq, to_lower, mem, Text, true, ◌+◌, ◌^◌, ◌*◌, none, some, [], ◌∷◌, codes, itoa,
  parse_int, split_text, ◌≡◌, refl, arith, parse_int-itoa,
}
use github_runners_infra.Webhook.Names.{is_safe_name, is_safe_repo_name, trim_space}
use github_runners_infra.Program.{run}
use github_runners_infra.Program.Rules.{EveryCall}
use github_runners_infra.Webhook.Limits.{second, minute, hour}
use github_runners_infra.Webhook.Failure.{Failure, good, new_error}
use github_runners_infra.Commands.Settings.{Getenv, Durations}
use github_runners_infra.Commands.Config.{RuntimeConfig, load_runtime_config}
use github_runners_infra.Commands.Config.Loaded.{IsLoaded, load_runtime_config-IsLoaded}
use github_runners_infra.Commands.Startup
use github_runners_infra.Commands.Startup.{RetryPolicy, attempts, validate_token_scope_with_policy}
use github_runners_infra.Commands.Startup.Budget.{
  IsInBudget, IsValidated, WaitsForNothing, validate_token_scope-IsInBudget, far_reset-is_over,
}
use github_runners_infra.Store.{FileStore}
use github_runners_infra.Dict.{get, put}
use github_runners_infra.Store.Claim.{set_max_live_runners}
use github_runners_infra.Webhook.Labels.{normalize_allowed_labels}
use github_runners_infra.Webhook.Limits.{with_defaults, resolve_handler_limits}
use github_runners_infra.Webhook.{accepted}
use github_runners_infra.Webhook.Handler.{Handler}
use github_runners_infra.Webhook.Construction.{Config, Digests, new_handler}
use github_runners_infra.Webhook.Construction.Ready.{IsReady, new_handler-IsReady}
use github_runners_infra.Examples.Values.{first_store}

abbrev policy : RetryPolicy
policy = record {
  min_delay = 5 * second;
  jitter = second;
  max_elapsed = 5 * minute;
  max_attempts = 5;
  budget = codes "5m0s";
}

abbrev valid : (c : Startup.Call) → Startup.Answer c
valid Startup.time_now = minute
valid Startup.context_err = none
valid Startup.validate = none
valid (Startup.random n) = 0
valid (Startup.wait n) = none

abbrev startup : Startup.Environment
startup past c = valid c

validate_token_scope-IsInBudget_example :
    EveryCall
      (IsInBudget policy minute)
      (run startup [] (validate_token_scope_with_policy policy)).0
    × IsValidated
        (run startup [] (validate_token_scope_with_policy policy)).0
        (run startup [] (validate_token_scope_with_policy policy)).1
validate_token_scope-IsInBudget_example = validate_token_scope-IsInBudget policy startup

abbrev limited : Failure
limited = record (new_error (codes "API rate limit exceeded")) {
  rate_limit = some (minute + 2 ^ 63);
}

-- The clock stands still, and seven nanoseconds of jitter are drawn.
abbrev drawing : (c : Startup.Call) → Startup.Answer c
drawing Startup.time_now = minute
drawing Startup.context_err = none
drawing Startup.validate = some limited
drawing (Startup.random n) = 7
drawing (Startup.wait n) = none

abbrev throttled : Startup.Environment
throttled past c = drawing c

far_reset-is_over_example :
    WaitsForNothing policy minute 1 4 (attempts policy minute 2 4) limited throttled []
far_reset-is_over_example =
    far_reset-is_over policy minute 1 4 (minute + 2 ^ 63) (attempts policy minute 2 4) limited
      throttled [] refl (λ e. cc) (omega arith) (omega arith) (omega arith) (omega arith)
      (omega arith) (omega arith) (omega arith)

-- Durations in nanoseconds.
abbrev durations : Durations
durations = record { parse_duration = parse_int; format_duration = itoa }

-- Every variable is set to a number.
abbrev numbers : Getenv
numbers key = codes "12"

abbrev loaded : RuntimeConfig
loaded = record {
  app_id = 12;
  installation_id = 12;
  private_key_path = codes "12";
  state_file = codes "12";
  required_label = codes "12";
  listen_addr = codes "12";
  webhook_secret = codes "12";
  runner_version = codes "12";
  runner_sha256 = codes "12";
  chef_installer_sha256 = codes "12";
  allowed_labels = codes "12" ∷ [];
  allowed_repositories = codes "12" ∷ [];
  allowed_public_repositories = codes "12" ∷ [];
  runner_group_id = 12;
  worker_count = 12;
  max_live_runners = 12;
  max_attempts = 12;
  max_runner_age = 12;
  cancelled_runner_ttl = 12;
  registration_timeout = 12;
  liveness_settle_window = 12;
  liveness_confirmations = 12;
  deleted_retention = 12;
}

loads : load_runtime_config durations numbers ≡ good loaded
unfolding load_runtime_config trim_space codes parse_int split_text
loads = refl

load_runtime_config-IsLoaded_example : IsLoaded durations numbers loaded
load_runtime_config-IsLoaded_example =
    load_runtime_config-IsLoaded durations numbers loaded parse_int-itoa loads

abbrev digests : Digests
digests = record { sha256 = λ s. s; hmac = λ key s. s }

abbrev checksum : Text
checksum = codes "00112233445566778899AABBCCDDEEFF00112233445566778899aabbccddeeff"

abbrev settings : Config
settings = record {
  webhook_secret = checksum;
  has_clients = true;
  provider = codes "aws";
  confirms_absence = true;
  cleans_up_except = true;
  required_label = [];
  allowed_labels = codes "self-hosted" ∷ codes " Linux" ∷ [];
  allowed_repositories = codes " Acme/Site" ∷ [];
  allowed_public_repositories = [];
  runner_version = codes "2.320.0";
  runner_sha256 = checksum;
  chef_installer_sha256 = checksum;
  limits = record {
    worker_count = pos 0;
    max_live_runners = pos 7;
    max_attempts = pos 0;
    poll_interval = pos 0;
    max_runner_age = pos 0;
    cancelled_runner_ttl = pos 0;
    registration_timeout = pos 0;
    liveness_settle_window = pos 0;
    liveness_confirmations = pos 0;
    runner_group_id = pos 0;
  };
  installation_id = 3;
}

abbrev made : Handler
made = record {
  provider = codes "aws";
  label_policy = record {
    required_label = codes "self-hosted";
    allowed_labels =
        (codes "self-hosted", codes "self-hosted") ∷ (codes "linux", codes "Linux") ∷ [];
  };
  allowed_repositories = codes "acme/site" ∷ [];
  allowed_public_repositories = [];
  runner_version = codes "2.320.0";
  runner_sha256 = codes "00112233445566778899aabbccddeeff00112233445566778899aabbccddeeff";
  chef_installer_sha256 = codes "00112233445566778899aabbccddeeff00112233445566778899aabbccddeeff";
  limits = record {
    worker_count = 4;
    max_live_runners = 7;
    max_attempts = 5;
    poll_interval = second;
    max_runner_age = 6 * hour;
    cancelled_runner_ttl = 5 * minute;
    registration_timeout = 10 * minute;
    liveness_settle_window = 2 * minute;
    liveness_confirmations = 3;
    runner_group_id = 1;
  };
  liveness_check_interval = 5 * minute;
  installation_id = 3;
  confirms_absence = true;
  cleans_up_except = true;
  sha256 = λ s. s;
  hmac_sha256 = λ s. s;
}

makes :
    new_handler digests settings first_store
    ≡ (accepted made, record first_store { max_live_runners = 7 })
unfolding new_handler codes split_text normalize_allowed_labels is_safe_name trim_space get put
    text_eq to_lower is_safe_repo_name mem resolve_handler_limits with_defaults set_max_live_runners
makes = refl

new_handler-IsReady_example :
    IsReady digests settings made
    × ◌≡◌ {A = FileStore}
        (record first_store { max_live_runners = 7 })
        (record first_store { max_live_runners = 7 })
new_handler-IsReady_example =
    new_handler-IsReady digests settings first_store (record first_store { max_live_runners = 7 })
      made makes
