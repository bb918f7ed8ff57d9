-- ===== src/Webhook/Handler.antt =====
-- internal/webhook/handler.go: the struct `Handler`, without its clients, channels, wait group and the
-- timeouts of contexts.
use github_runners_infra.Prelude.{ℕ, ◌==◌, Bool, ◌&&◌, not, List, Text}
use github_runners_infra.Record.{Record}
use github_runners_infra.Webhook.Labels.{LabelPolicy}
use github_runners_infra.Webhook.Limits.{HandlerLimits}

pub record Handler : Type 0 where
  pub provider : Text
  pub label_policy : LabelPolicy
  pub allowed_repositories : List Text
  pub allowed_public_repositories : List Text
  pub runner_version : Text
  pub runner_sha256 : Text
  pub chef_installer_sha256 : Text
  pub limits : HandlerLimits
  pub liveness_check_interval : ℕ
  pub installation_id : ℕ
  -- The compute client has `RunnerAbsent`, and has `CleanupRunnerExcept`.
  pub confirms_absence : Bool
  pub cleans_up_except : Bool
  -- sha256.Sum256
  pub sha256 : Text → Text
  -- hmac.New(sha256.New, webhookSecret), applied to a message.
  pub hmac_sha256 : Text → Text

-- record.GitHubRunnerID != 0 && record.GitHubRunnerOwned
abbrev pub owns_registration : Record → Bool
owns_registration r = not (r.github_runner_id == 0) && r.github_runner_owned
