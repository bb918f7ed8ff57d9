-- ===== src/Commands/Config.antt =====
-- cmd/webhook/main.go: `runtimeConfig` and `loadRuntimeConfig`.
pub mod Loaded
use github_runners_infra.Prelude.{ℕ, ◌*◌, List, [], ◌∷◌, ◌++◌, Text, codes}
use github_runners_infra.Webhook.Limits.{minute, hour}
use github_runners_infra.Webhook.Failure.{Outcome, good, bad, new_error}
use github_runners_infra.Commands.Settings.{
  Getenv, Durations, ◌>>=◌, required_env, required_raw_env, env_or_default, required_positive_int64,
  env_positive_int, env_duration, split_csv,
}

pub record RuntimeConfig : Type 0 where
  pub app_id : ℕ
  pub installation_id : ℕ
  pub private_key_path : Text
  pub state_file : Text
  pub required_label : Text
  pub listen_addr : Text
  pub webhook_secret : Text
  pub runner_version : Text
  pub runner_sha256 : Text
  pub chef_installer_sha256 : Text
  pub allowed_labels : List Text
  pub allowed_repositories : List Text
  pub allowed_public_repositories : List Text
  pub runner_group_id : ℕ
  pub worker_count : ℕ
  pub max_live_runners : ℕ
  pub max_attempts : ℕ
  pub max_runner_age : ℕ
  pub cancelled_runner_ttl : ℕ
  pub registration_timeout : ℕ
  pub liveness_settle_window : ℕ
  pub liveness_confirmations : ℕ
  pub deleted_retention : ℕ

-- A required list with at least one item.
unfoldable pub required_items : Text → List Text → Outcome (List Text)
required_items key [] = bad (new_error (key ++ codes " must contain at least one non-empty value"))
required_items key (item ∷ items) = good (item ∷ items)

-- `loadRuntimeConfig`
unfoldable pub load_runtime_config : Durations → Getenv → Outcome RuntimeConfig
unfolding required_env required_raw_env env_or_default required_positive_int64 env_positive_int
    env_duration split_csv required_items
load_runtime_config lib env = do
  app_id ← required_positive_int64 env (codes "APP_ID")
  installation_id ← required_positive_int64 env (codes "APP_INSTALLATION_ID")
  private_key_path ← required_env env (codes "APP_PRIVATE_KEY_FILE")
  repositories ← required_env env (codes "ALLOWED_REPOSITORIES")
  allowed_repositories ← required_items (codes "ALLOWED_REPOSITORIES") (split_csv repositories)
  labels ← required_env env (codes "ALLOWED_LABELS")
  allowed_labels ← required_items (codes "ALLOWED_LABELS") (split_csv labels)
  webhook_secret ← required_raw_env env (codes "WEBHOOK_SECRET")
  runner_version ← required_env env (codes "RUNNER_VERSION")
  runner_sha256 ← required_env env (codes "RUNNER_SHA256")
  chef_installer_sha256 ← required_env env (codes "CHEF_INSTALLER_SHA256")
  runner_group_id ← env_positive_int env (codes "RUNNER_GROUP_ID") 1
  worker_count ← env_positive_int env (codes "WORKER_COUNT") 4
  max_live_runners ← env_positive_int env (codes "MAX_LIVE_RUNNERS") 20
  max_attempts ← env_positive_int env (codes "MAX_ATTEMPTS") 5
  max_runner_age ← env_duration lib env (codes "MAX_RUNNER_AGE") (6 * hour)
  cancelled_runner_ttl ← env_duration lib env (codes "CANCELLED_RUNNER_TTL") (5 * minute)
  registration_timeout ← env_duration lib env (codes "RUNNER_REGISTRATION_TIMEOUT") (10 * minute)
  liveness_settle_window ← env_duration lib env (codes "LIVENESS_SETTLE_WINDOW") (2 * minute)
  liveness_confirmations ← env_positive_int env (codes "LIVENESS_CONFIRMATIONS") 3
  deleted_retention ← env_duration lib env (codes "DELETED_RECORD_RETENTION") (24 * hour)
  good (record {
    app_id = app_id;
    installation_id = installation_id;
    private_key_path = private_key_path;
    state_file =
        env_or_default env (codes "STATE_FILE") (codes "/var/lib/github-runners/state.json");
    required_label = env_or_default env (codes "REQUIRED_LABEL") (codes "self-hosted");
    listen_addr = env_or_default env (codes "LISTEN_ADDR") (codes ":8080");
    webhook_secret = webhook_secret;
    runner_version = runner_version;
    runner_sha256 = runner_sha256;
    chef_installer_sha256 = chef_installer_sha256;
    allowed_labels = allowed_labels;
    allowed_repositories = allowed_repositories;
    allowed_public_repositories = split_csv (env (codes "ALLOWED_PUBLIC_REPOSITORIES"));
    runner_group_id = runner_group_id;
    worker_count = worker_count;
    max_live_runners = max_live_runners;
    max_attempts = max_attempts;
    max_runner_age = max_runner_age;
    cancelled_runner_ttl = cancelled_runner_ttl;
    registration_timeout = registration_timeout;
    liveness_settle_window = liveness_settle_window;
    liveness_confirmations = liveness_confirmations;
    deleted_retention = deleted_retention;
  })
