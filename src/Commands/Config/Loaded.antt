-- ===== src/Commands/Config/Loaded.antt =====
-- cmd/webhook/main.go: the configurations that `loadRuntimeConfig` accepts.
use github_runners_infra.Prelude.{
  ℕ, ◌*◌, ◌^◌, ◌<◌, List, [], ◌∷◌, some, pos, Text, codes, parse_int, ◌≡◌, ◌≢◌, ◌∙◌, ap, subst,
  arith, refl,
}
use github_runners_infra.Webhook.Limits.{minute, hour}
use github_runners_infra.Webhook.Names.{trim_space}
use github_runners_infra.Webhook.Failure.{good}
use github_runners_infra.Commands.Settings.{
  Getenv, Durations, split_csv, required_env, required_raw_env, required_positive_int64,
  env_positive_int, env_duration,
}
use github_runners_infra.Commands.Settings.Read.{
  IsText, IsOptional, IsSetting, IsNumber, bind_good, env_or_default-IsOptional, required-good,
  required_env-IsText, required_positive_int64-IsNumber, env_positive_int-IsSetting,
  env_duration-IsSetting,
}
use github_runners_infra.Commands.Config.{RuntimeConfig, required_items, load_runtime_config}

-- The items of a variable that is set.
abbrev pub AreItems : Getenv → Text → List Text → Type 0
AreItems env key items =
    (items ≡ split_csv (trim_space (env key))) × (items ≢ []) × (trim_space (env key) ≢ [])

-- Each field is read from its variable, with the defaults of the documentation.
pub record IsLoaded (lib : Durations) (env : Getenv) (c : RuntimeConfig) : Type 0 where
  pub app_id : IsNumber env (codes "APP_ID") c.app_id
  pub installation_id : IsNumber env (codes "APP_INSTALLATION_ID") c.installation_id
  pub private_key_path : IsText env (codes "APP_PRIVATE_KEY_FILE") c.private_key_path
  pub state_file :
      IsOptional env (codes "STATE_FILE") (codes "/var/lib/github-runners/state.json") c.state_file
  pub required_label :
      IsOptional env (codes "REQUIRED_LABEL") (codes "self-hosted") c.required_label
  pub listen_addr : IsOptional env (codes "LISTEN_ADDR") (codes ":8080") c.listen_addr
  pub allowed_public_repositories :
      c.allowed_public_repositories ≡ split_csv (env (codes "ALLOWED_PUBLIC_REPOSITORIES"))
  pub allowed_repositories : AreItems env (codes "ALLOWED_REPOSITORIES") c.allowed_repositories
  pub allowed_labels : AreItems env (codes "ALLOWED_LABELS") c.allowed_labels
  pub webhook_secret : (c.webhook_secret ≡ env (codes "WEBHOOK_SECRET")) × (c.webhook_secret ≢ [])
  pub runner_version : IsText env (codes "RUNNER_VERSION") c.runner_version
  pub runner_sha256 : IsText env (codes "RUNNER_SHA256") c.runner_sha256
  pub chef_installer_sha256 : IsText env (codes "CHEF_INSTALLER_SHA256") c.chef_installer_sha256
  pub runner_group_id : IsSetting parse_int env (codes "RUNNER_GROUP_ID") 1 c.runner_group_id
  pub worker_count : IsSetting parse_int env (codes "WORKER_COUNT") 4 c.worker_count
  pub max_live_runners : IsSetting parse_int env (codes "MAX_LIVE_RUNNERS") 20 c.max_live_runners
  pub max_attempts : IsSetting parse_int env (codes "MAX_ATTEMPTS") 5 c.max_attempts
  pub max_runner_age :
      IsSetting lib.parse_duration env (codes "MAX_RUNNER_AGE") (6 * hour) c.max_runner_age
  pub cancelled_runner_ttl :
      IsSetting lib.parse_duration env
        (codes "CANCELLED_RUNNER_TTL")
        (5 * minute)
        c.cancelled_runner_ttl
  pub registration_timeout :
      IsSetting lib.parse_duration env
        (codes "RUNNER_REGISTRATION_TIMEOUT")
        (10 * minute)
        c.registration_timeout
  pub liveness_settle_window :
      IsSetting lib.parse_duration env
        (codes "LIVENESS_SETTLE_WINDOW")
        (2 * minute)
        c.liveness_settle_window
  pub liveness_confirmations :
      IsSetting parse_int env (codes "LIVENESS_CONFIRMATIONS") 3 c.liveness_confirmations
  pub deleted_retention :
      IsSetting lib.parse_duration env
        (codes "DELETED_RECORD_RETENTION")
        (24 * hour)
        c.deleted_retention

required_items-good :
    (key : Text) (found items : List Text)
    → required_items key found ≡ good items
    → (items ≡ found) × (items ≢ [])
unfolding required_items
required_items-good key [] items e = cc
required_items-good key (item ∷ rest) items e = (cc, λ z. cc)

good-injective : (a b : RuntimeConfig) → good a ≡ good b → a ≡ b
good-injective a b e = cc

AreItems-read :
    (env : Getenv) (key value : Text) (items : List Text)
    → IsText env key value
    → required_items key (split_csv value) ≡ good items
    → AreItems env key items
AreItems-read env key value items (same, some_value) e =
    let (found, some_item) = required_items-good key (split_csv value) items e in
    (found ∙ ap split_csv same, some_item, λ z. some_value (same ∙ z))

-- Where `time.ParseDuration` reads what `Duration.String` prints, `loadRuntimeConfig` succeeds only with
-- a configuration of which each required text, list and number was set, each number is positive, each
-- optional text, number and duration is that of its variable, or the default where this is blank, and
-- the public repositories are the items of their variable.
pub load_runtime_config-IsLoaded :
    (lib : Durations) (env : Getenv) (c : RuntimeConfig)
    → ((n : ℕ) → n < 2 ^ 63 → lib.parse_duration (lib.format_duration n) ≡ some (pos n))
    → load_runtime_config lib env ≡ good c
    → IsLoaded lib env c
unfolding load_runtime_config required_raw_env
load_runtime_config-IsLoaded lib env c reads e =
    let (app_id, e1, r1) = bind_good (required_positive_int64 env (codes "APP_ID")) _ c e in
    let (installation_id, e2, r2) =
      bind_good (required_positive_int64 env (codes "APP_INSTALLATION_ID")) _ c r1 in
    let (private_key_path, e3, r3) =
      bind_good (required_env env (codes "APP_PRIVATE_KEY_FILE")) _ c r2 in
    let (repositories, e4, r4) =
      bind_good (required_env env (codes "ALLOWED_REPOSITORIES")) _ c r3 in
    let (allowed_repositories, e5, r5) =
      bind_good (required_items (codes "ALLOWED_REPOSITORIES") (split_csv repositories)) _ c r4 in
    let (labels, e6, r6) = bind_good (required_env env (codes "ALLOWED_LABELS")) _ c r5 in
    let (allowed_labels, e7, r7) =
      bind_good (required_items (codes "ALLOWED_LABELS") (split_csv labels)) _ c r6 in
    let (webhook_secret, e8, r8) =
      bind_good (required_raw_env env (codes "WEBHOOK_SECRET")) _ c r7 in
    let (runner_version, e9, r9) = bind_good (required_env env (codes "RUNNER_VERSION")) _ c r8 in
    let (runner_sha256, e10, r10) = bind_good (required_env env (codes "RUNNER_SHA256")) _ c r9 in
    let (chef_installer_sha256, e11, r11) =
      bind_good (required_env env (codes "CHEF_INSTALLER_SHA256")) _ c r10 in
    let (runner_group_id, e12, r12) =
      bind_good (env_positive_int env (codes "RUNNER_GROUP_ID") 1) _ c r11 in
    let (worker_count, e13, r13) =
      bind_good (env_positive_int env (codes "WORKER_COUNT") 4) _ c r12 in
    let (max_live_runners, e14, r14) =
      bind_good (env_positive_int env (codes "MAX_LIVE_RUNNERS") 20) _ c r13 in
    let (max_attempts, e15, r15) =
      bind_good (env_positive_int env (codes "MAX_ATTEMPTS") 5) _ c r14 in
    let (max_runner_age, e16, r16) =
      bind_good (env_duration lib env (codes "MAX_RUNNER_AGE") (6 * hour)) _ c r15 in
    let (cancelled_runner_ttl, e17, r17) =
      bind_good (env_duration lib env (codes "CANCELLED_RUNNER_TTL") (5 * minute)) _ c r16 in
    let (registration_timeout, e18, r18) =
      bind_good (env_duration lib env (codes "RUNNER_REGISTRATION_TIMEOUT") (10 * minute)) _ c
        r17 in
    let (liveness_settle_window, e19, r19) =
      bind_good (env_duration lib env (codes "LIVENESS_SETTLE_WINDOW") (2 * minute)) _ c r18 in
    let (liveness_confirmations, e20, r20) =
      bind_good (env_positive_int env (codes "LIVENESS_CONFIRMATIONS") 3) _ c r19 in
    let (deleted_retention, e21, r21) =
      bind_good (env_duration lib env (codes "DELETED_RECORD_RETENTION") (24 * hour)) _ c r20 in
    subst (IsLoaded lib env) (good-injective _ c r21) (record {
      app_id = required_positive_int64-IsNumber env (codes "APP_ID") app_id e1;
      installation_id =
          required_positive_int64-IsNumber env (codes "APP_INSTALLATION_ID") installation_id e2;
      private_key_path = required_env-IsText env (codes "APP_PRIVATE_KEY_FILE") private_key_path e3;
      state_file =
          env_or_default-IsOptional env (codes "STATE_FILE")
            (codes "/var/lib/github-runners/state.json");
      required_label = env_or_default-IsOptional env (codes "REQUIRED_LABEL") (codes "self-hosted");
      listen_addr = env_or_default-IsOptional env (codes "LISTEN_ADDR") (codes ":8080");
      allowed_public_repositories = refl;
      allowed_repositories =
          AreItems-read env (codes "ALLOWED_REPOSITORIES") repositories allowed_repositories
            (required_env-IsText env (codes "ALLOWED_REPOSITORIES") repositories e4) e5;
      allowed_labels =
          AreItems-read env (codes "ALLOWED_LABELS") labels allowed_labels
            (required_env-IsText env (codes "ALLOWED_LABELS") labels e6) e7;
      webhook_secret =
          required-good (codes "WEBHOOK_SECRET") (env (codes "WEBHOOK_SECRET")) webhook_secret e8;
      runner_version = required_env-IsText env (codes "RUNNER_VERSION") runner_version e9;
      runner_sha256 = required_env-IsText env (codes "RUNNER_SHA256") runner_sha256 e10;
      chef_installer_sha256 =
          required_env-IsText env (codes "CHEF_INSTALLER_SHA256") chef_installer_sha256 e11;
      runner_group_id =
          env_positive_int-IsSetting env (codes "RUNNER_GROUP_ID") 1 runner_group_id (omega arith)
            e12;
      worker_count =
          env_positive_int-IsSetting env (codes "WORKER_COUNT") 4 worker_count (omega arith) e13;
      max_live_runners =
          env_positive_int-IsSetting env (codes "MAX_LIVE_RUNNERS") 20 max_live_runners
            (omega arith) e14;
      max_attempts =
          env_positive_int-IsSetting env (codes "MAX_ATTEMPTS") 5 max_attempts (omega arith) e15;
      max_runner_age =
          env_duration-IsSetting lib env (codes "MAX_RUNNER_AGE") (6 * hour) max_runner_age
            (reads (6 * hour) (omega arith)) e16;
      cancelled_runner_ttl =
          env_duration-IsSetting lib env (codes "CANCELLED_RUNNER_TTL") (5 * minute)
            cancelled_runner_ttl (reads (5 * minute) (omega arith)) e17;
      registration_timeout =
          env_duration-IsSetting lib env (codes "RUNNER_REGISTRATION_TIMEOUT") (10 * minute)
            registration_timeout (reads (10 * minute) (omega arith)) e18;
      liveness_settle_window =
          env_duration-IsSetting lib env (codes "LIVENESS_SETTLE_WINDOW") (2 * minute)
            liveness_settle_window (reads (2 * minute) (omega arith)) e19;
      liveness_confirmations =
          env_positive_int-IsSetting env (codes "LIVENESS_CONFIRMATIONS") 3 liveness_confirmations
            (omega arith) e20;
      deleted_retention =
          env_duration-IsSetting lib env (codes "DELETED_RECORD_RETENTION") (24 * hour)
            deleted_retention (reads (24 * hour) (omega arith)) e21;
    })
