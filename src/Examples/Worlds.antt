-- ===== src/Examples/Worlds.antt =====
-- A handler, a request and worlds that the tests run on.
use github_runners_infra.Prelude.{
  true, false, Option, none, some, [], ◌∷◌, Text, codes, text_eq, if◌then◌else◌,
}
use github_runners_infra.Record.{
  Record, work_provision, deleting, provisioning, provisioned, work_delete,
}
use github_runners_infra.Webhook.Failure.{Outcome, good}
use github_runners_infra.Webhook.Labels.{LabelPolicy}
use github_runners_infra.Webhook.Limits.{HandlerLimits, minute, hour}
use github_runners_infra.Webhook.Handler.{Handler}
use github_runners_infra.Webhook.Calls
use github_runners_infra.Webhook.Calls.{
  Call, Answer, StoreCall, StoreValue, store, job_queued, runner_missing,
}
use github_runners_infra.Webhook.Program.{Environment}
use github_runners_infra.Webhook.Request.{Request, WorkflowJobEvent}
use github_runners_infra.Examples.Values.{job}

abbrev pub policy : LabelPolicy
policy = record {
  required_label = codes "self-hosted";
  allowed_labels = (codes "self-hosted", codes "self-hosted") ∷ (codes "linux", codes "Linux") ∷ [];
}

abbrev pub limits : HandlerLimits
limits = record {
  worker_count = 4;
  max_live_runners = 20;
  max_attempts = 5;
  poll_interval = minute;
  max_runner_age = hour;
  cancelled_runner_ttl = hour;
  registration_timeout = minute;
  liveness_settle_window = minute;
  liveness_confirmations = 3;
  runner_group_id = 1;
}

abbrev pub handler : Handler
handler = record {
  provider = codes "aws";
  label_policy = policy;
  allowed_repositories = codes "acme/site" ∷ [];
  allowed_public_repositories = [];
  runner_version = codes "2.320.0";
  runner_sha256 = codes "aa";
  chef_installer_sha256 = codes "bb";
  limits = limits;
  liveness_check_interval = minute;
  installation_id = 3;
  confirms_absence = true;
  cleans_up_except = true;
  sha256 = λ s. s;
  hmac_sha256 = λ s. s;
}

-- The job, claimed for its first runner.
abbrev pub claimed_job : Record
claimed_job = record job { status = provisioning; claimed_work = work_provision; attempts = 1 }

-- The job, claimed for the deletion of its instance.
abbrev pub finished_job : Record
finished_job = record job {
  status = deleting;
  claimed_work = work_delete;
  instance_id = codes "i-1";
  github_runner_id = 8;
  github_runner_owned = true;
  delete_attempts = 1;
}

-- The job, with an instance.
abbrev pub provisioned_job : Record
provisioned_job = record job {
  status = provisioned;
  instance_id = codes "i-1";
  github_runner_id = 8;
  github_runner_owned = true;
  provisioned_at = 100;
}

-- Every method of the store succeeds.
stored : (c : StoreCall) → Outcome (StoreValue c)
stored (StoreCall.create _) = good true
stored (StoreCall.get_record _) = good (some claimed_job)
stored (StoreCall.owns_runner _ _ _) = good true
stored (StoreCall.claim_next _ _) = good (some (claimed_job, work_provision))
stored (StoreCall.finish_deleted_runner _ _) = good false
stored (StoreCall.begin_cleanup_attempt _ _) = good (1, true)
stored (StoreCall.list_expired _) = good []
stored StoreCall.list_provisioned = good []
stored StoreCall.list_orphaned = good []
stored StoreCall.known_instance_ids = good []
stored (StoreCall.release_swept_orphans _ _) = good 0
stored (StoreCall.observe_runner_missing _ _ _ _) = good true
stored (StoreCall.observe_github_runner_missing _ _ _ _) = good false
stored StoreCall.prune_deleted = good 0
stored _ = good tt

-- Every call succeeds, and the job is still queued.
unfoldable pub sunny : Environment
unfolding stored
sunny past (store c) = stored c
sunny past (Calls.trusted_workflow_run _ _ _) = good true
sunny past (Calls.workflow_job_status _ _ _) = good job_queued
sunny past (Calls.generate_jit_config _ _ _ _ _) =
    good (record { runner_id = 8; encoded_config = codes "c" })
sunny past (Calls.repo_runner_status _ _ _) = good runner_missing
sunny past (Calls.remove_repo_runner _ _ _) = good tt
sunny past (Calls.find_runner _) = good none
sunny past (Calls.create_runner params) =
    good (record { id = codes "i-1"; name = params.runner_name })
sunny past (Calls.delete_runner _ _) = good tt
sunny past (Calls.cleanup_runner _) = good tt
sunny past (Calls.cleanup_runner_except _ _) = good tt
sunny past (Calls.runner_absent _) = good true
sunny past (Calls.sweep_orphaned_runners _ _) = good 0
sunny past Calls.context_ended = false
sunny past Calls.parent_ended = false
sunny past Calls.time_now = 1000
sunny past Calls.ingest_slot = true
sunny past Calls.signal = tt

abbrev pub queued_event : WorkflowJobEvent
queued_event = record {
  action = codes "queued";
  run_id = 70;
  job_id = 7;
  labels = codes "self-hosted" ∷ codes "linux" ∷ [];
  runner_id = 0;
  runner_name = [];
  repo = record {
    full_name = codes "acme/site";
    name = codes "site";
    private_repo = true;
    owner_login = codes "acme";
  };
  installation_id = 3;
}

abbrev pub body : Text
body = b'q' ∷ []

-- The body stands for the event.
abbrev pub decode : Text → Option WorkflowJobEvent
decode s = if text_eq s body then some queued_event else none

-- The signature of the body, with the identity in place of the hash.
abbrev pub queued_request : Request
queued_request = record {
  method = codes "POST";
  body = some body;
  signature = codes "sha256=71";
  event_type = codes "workflow_job";
  delivery_id = codes "d1";
}
