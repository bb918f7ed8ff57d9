-- ===== src/Webhook.antt =====
-- internal/webhook/handler.go: the decisions of the handler that depend on its settings alone.
pub mod Names
pub mod Failure
pub mod Calls
pub mod Program
pub mod Labels
pub mod Limits
pub mod Delays
pub mod RunnerName
pub mod Handler
pub mod Construction
pub mod Stored
pub mod Retreat
pub mod Demand
pub mod Provision
pub mod Deletion
pub mod Worker
pub mod Liveness
pub mod Expiry
pub mod Reaper
pub mod Request
pub mod Ingest
use github_runners_infra.Prelude.{Text}
use github_runners_infra.Store.{Error}

pub data Refusal : Type 0 where
  invalid_label : Text → Refusal
  required_not_allowed : Text → Refusal
  not_allowlisted : Text → Refusal
  required_missing : Text → Refusal
  invalid_repository : Text → Refusal
  no_repository : Refusal
  invalid_name : Refusal
  identity_disagrees : Refusal
  runner_age_too_short : Refusal
  cancelled_ttl_too_short : Refusal
  registration_timeout_out_of_range : Refusal
  secret_too_short : Refusal
  clients_missing : Refusal
  installation_missing : Refusal
  invalid_version : Refusal
  invalid_runner_checksum : Refusal
  invalid_chef_checksum : Refusal
  outside_allowlist : Text → Refusal
  store_refused : Error → Refusal

-- A result with an error.
pub data Checked {ℓ} (A : Type ℓ) : Type ℓ where
  accepted : A → Checked A
  refused : Refusal → Checked A
