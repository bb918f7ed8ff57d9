-- ===== src/Examples/Workers.antt =====
-- The handler at concrete inputs: tests of its programs and the theorems about them.
use github_runners_infra.Prelude.{
  length, true, ◌≤◌, text_eq, zero, suc, pos, negsuc, ℕ, ◌≡◌, ◌↔◌, refl, arith, List, [], ◌∷◌, Text,
  codes, to_lower, lower_byte,
}
use github_runners_infra.Record.{Record, work_delete}
use github_runners_infra.Record.Claims.{on_defer_deletion_confirmation}
use github_runners_infra.Record.Recovering.{recover_record}
use github_runners_infra.Record.Recovering.Idle.{IsRecovered, recover_record-IsRecovered}
use github_runners_infra.Store.Completion.{complete_job}
use github_runners_infra.Store.Completion.Stranded.{IsStranded, deferral-IsStranded}
use github_runners_infra.Store.Identity.{runner_identity_key}
use github_runners_infra.Store.Identity.Keys.{IsRepository, runner_identity_key-injective}
use github_runners_infra.Webhook.{accepted}
use github_runners_infra.Program.{run}
use github_runners_infra.Program.Rules.{EveryCall}
use github_runners_infra.Webhook.Labels.{validate_labels}
use github_runners_infra.Webhook.Labels.Allowlist.{
  AllAllowed, Requests, AllSpelled, validate_labels-accepts,
}
use github_runners_infra.Webhook.Limits.{
  LimitConfig, with_defaults, check_limits, or_default, resolve_handler_limits,
}
use github_runners_infra.Webhook.Limits.Resolved.{
  IsInRange, IsResolved, resolve_handler_limits-IsResolved,
}
use github_runners_infra.Webhook.Names.{
  is_alphanumeric, is_name_byte, all_name_bytes, is_safe_name, is_safe_repo_name,
}
use github_runners_infra.Webhook.RunnerName.{runner_name, looks_like_ephemeral_runner_name}
use github_runners_infra.Webhook.RunnerName.Recognised.{
  AllBytes, IsDigest, runner_name-IsRecognised,
}
use github_runners_infra.Webhook.Provision.{provision}
use github_runners_infra.Webhook.Provision.Steps.{IsOrderly}
use github_runners_infra.Webhook.Deletion.{delete}
use github_runners_infra.Webhook.Deletion.Due.{IsDue}
use github_runners_infra.Webhook.Worker.{process}
use github_runners_infra.Webhook.Worker.Ends.{
  EndsWork, provision-IsOrderly, delete-IsDue, process-EndsWork,
}
use github_runners_infra.Webhook.Ingest.{serve_http}
use github_runners_infra.Webhook.Ingest.Genuine.{IsAuthorized}
use github_runners_infra.Webhook.Ingest.Authorized.{serve_http-IsAuthorized}
use github_runners_infra.Webhook.Liveness.{reconcile_provisioned_runner}
use github_runners_infra.Webhook.Liveness.Causes.{HasCause}
use github_runners_infra.Webhook.Liveness.Replacement.{reconcile_provisioned_runner-HasCause}
use github_runners_infra.Webhook.Expiry.{expire_runner}
use github_runners_infra.Webhook.Expiry.Causes.{MayExpire}
use github_runners_infra.Webhook.Expiry.Steps.{expire_runner-MayExpire}
use github_runners_infra.Examples.Values.{job}
use github_runners_infra.Examples.Worlds.{
  policy, handler, claimed_job, finished_job, provisioned_job, sunny, decode, queued_request,
}

provision-IsOrderly_example :
    EveryCall (IsOrderly handler claimed_job []) (run sunny [] (provision handler claimed_job)).0
provision-IsOrderly_example = provision-IsOrderly handler claimed_job sunny

delete-IsDue_example :
    EveryCall (IsDue handler finished_job []) (run sunny [] (delete handler finished_job)).0
delete-IsDue_example = delete-IsDue handler finished_job sunny

process-EndsWork_example :
    EndsWork finished_job work_delete (run sunny [] (process handler finished_job work_delete)).0
process-EndsWork_example = process-EndsWork handler finished_job work_delete sunny (λ e. cc)

serve_http-IsAuthorized_example :
    EveryCall
      (IsAuthorized handler decode queued_request)
      (run sunny [] (serve_http handler decode queued_request)).0
serve_http-IsAuthorized_example = serve_http-IsAuthorized handler decode queued_request sunny

reconcile_provisioned_runner-HasCause_example :
    EveryCall
      (HasCause handler provisioned_job)
      (run sunny [] (reconcile_provisioned_runner handler provisioned_job)).0
reconcile_provisioned_runner-HasCause_example =
    reconcile_provisioned_runner-HasCause handler provisioned_job sunny

expire_runner-MayExpire_example :
    EveryCall (MayExpire handler claimed_job) (run sunny [] (expire_runner handler claimed_job)).0
expire_runner-MayExpire_example = expire_runner-MayExpire handler claimed_job sunny

-- A configuration that sets some limits.
abbrev config : LimitConfig
config = record {
  worker_count = pos (suc zero);
  max_live_runners = pos zero;
  max_attempts = negsuc zero;
  poll_interval = pos zero;
  max_runner_age = pos zero;
  cancelled_runner_ttl = pos zero;
  registration_timeout = pos zero;
  liveness_settle_window = pos zero;
  liveness_confirmations = pos zero;
  runner_group_id = pos zero;
}

resolve_handler_limits-IsResolved_example :
    ((resolve_handler_limits config ≡ accepted (with_defaults config))
      ↔ ((with_defaults config ≡ with_defaults config) × IsInRange (with_defaults config)))
    × (resolve_handler_limits config ≡ accepted (with_defaults config)
        → IsResolved config (with_defaults config) × IsInRange (with_defaults config))
resolve_handler_limits-IsResolved_example =
    resolve_handler_limits-IsResolved config (with_defaults config)

-- The configuration is accepted.
config_accepted : resolve_handler_limits config ≡ accepted (with_defaults config)
unfolding resolve_handler_limits check_limits with_defaults or_default
config_accepted = refl

-- The labels of a job.
abbrev requested : List Text
requested = codes "linux" ∷ codes "Self-Hosted" ∷ []

validate_labels-accepts_example :
    (((labels : List Text) × (validate_labels policy requested ≡ accepted labels))
      ↔ (AllAllowed policy requested × Requests policy requested))
    × ((labels : List Text)
        → validate_labels policy requested ≡ accepted labels
        → AllSpelled policy labels)
validate_labels-accepts_example = validate_labels-accepts policy requested

-- The deletion was accepted and waits for its confirmation.
abbrev waiting_job : Record
waiting_job = record finished_job { deletion_accepted_id = codes "i-1" }

deferral-IsStranded_example :
    (on_defer_deletion_confirmation [] 2000 (complete_job 1000 job waiting_job)
      ≡ complete_job 1000 job waiting_job)
    × IsStranded (complete_job 1000 job waiting_job)
deferral-IsStranded_example = deferral-IsStranded waiting_job job 1000 [] 2000 refl refl refl

recover_record-IsRecovered_example :
    IsRecovered 1000 500 claimed_job (recover_record 1000 500 claimed_job)
recover_record-IsRecovered_example = recover_record-IsRecovered 1000 500 claimed_job

abbrev acme : Text
acme = b'a' ∷ b'c' ∷ []

abbrev upper_acme : Text
upper_acme = b'A' ∷ b'c' ∷ []

abbrev site : Text
site = b's' ∷ []

abbrev runner_id : ℕ
runner_id = 12

acme-IsRepository : IsRepository acme site
acme-IsRepository = record {
  owner_slash = (omega arith, (omega arith, tt));
  owner_hash = (omega arith, (omega arith, tt));
  repository_hash = (omega arith, tt);
}

upper_acme-IsRepository : IsRepository upper_acme site
upper_acme-IsRepository = record {
  owner_slash = (omega arith, (omega arith, tt));
  owner_hash = (omega arith, (omega arith, tt));
  repository_hash = (omega arith, tt);
}

same_key : runner_identity_key acme site runner_id ≡ runner_identity_key upper_acme site runner_id
unfolding runner_identity_key to_lower lower_byte
same_key = refl

runner_identity_key-injective_example :
    (to_lower acme ≡ to_lower upper_acme)
    × (to_lower site ≡ to_lower site)
    × (runner_id ≡ runner_id)
runner_identity_key-injective_example =
    runner_identity_key-injective acme upper_acme site site runner_id runner_id acme-IsRepository
      upper_acme-IsRepository same_key

-- A digest of zeros.
abbrev zeros : ℕ → Text
zeros zero = []
zeros (suc n) = 0 ∷ zeros n

zeros-AllBytes : (n : ℕ) → AllBytes (zeros n)
zeros-AllBytes zero = tt
zeros-AllBytes (suc n) = (omega arith, zeros-AllBytes n)

zeros-IsDigest : (s : Text) → IsDigest (zeros 32)
zeros-IsDigest s = record { size = refl; bytes = zeros-AllBytes 32 }

site_safe : is_safe_repo_name (to_lower site) ≡ true
unfolding is_safe_repo_name is_safe_name is_alphanumeric all_name_bytes is_name_byte to_lower
    lower_byte codes text_eq
site_safe = refl

runner_name-IsRecognised_example :
    (looks_like_ephemeral_runner_name (runner_name (λ s. zeros 32) site 7) ≡ true)
    × (length (runner_name (λ s. zeros 32) site 7) ≤ 63)
runner_name-IsRecognised_example =
    runner_name-IsRecognised (λ s. zeros 32) zeros-IsDigest site 7 site_safe
