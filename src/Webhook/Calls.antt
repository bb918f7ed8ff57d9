-- ===== src/Webhook/Calls.antt =====
-- The calls that internal/webhook/handler.go makes of the interfaces `state.Store`, `GitHubClient`
-- and `ComputeClient`, of its context, of the clock and of its notification channel, and the types
-- of their answers. Contexts are not passed: a call that a context stops answers a failure that
-- says so.
use github_runners_infra.Prelude.{ℕ, Bool, Option, List, Text}
use github_runners_infra.Record.{Record, WorkKind}
use github_runners_infra.Webhook.Failure.{Outcome}

-- The methods of `state.Store` that the handler calls.
pub data StoreCall : Type 0 where
  create : Record → StoreCall
  record_completion : Record → StoreCall
  get_record : Text → StoreCall
  owns_runner : Text → Text → ℕ → StoreCall
  claim_next : ℕ → ℕ → StoreCall
  release_claim : Text → WorkKind → StoreCall
  defer_provisioning_demand : Text → Text → ℕ → StoreCall
  defer_rate_limited_work : Text → WorkKind → Text → ℕ → ℕ → StoreCall
  mark_jit_created : Text → ℕ → Text → StoreCall
  clear_jit : Text → StoreCall
  mark_provisioned : Text → Text → ℕ → Text → StoreCall
  mark_provision_failed : Text → Text → ℕ → ℕ → StoreCall
  mark_completed : Text → StoreCall
  schedule_deletion : Text → StoreCall
  mark_deleted : Text → StoreCall
  finish_deleted_runner : Text → Bool → StoreCall
  defer_reassignment_demand : Text → Text → ℕ → StoreCall
  mark_deletion_accepted : Text → Text → StoreCall
  defer_deletion_confirmation : Text → Text → ℕ → StoreCall
  begin_cleanup_attempt : Text → ℕ → StoreCall
  mark_delete_failed : Text → Text → ℕ → ℕ → StoreCall
  mark_orphaned : Text → Text → StoreCall
  list_expired : ℕ → StoreCall
  list_provisioned list_orphaned : StoreCall
  release_absent_orphan : Text → Text → StoreCall
  known_instance_ids : StoreCall
  release_swept_orphans : Text → ℕ → StoreCall
  observe_runner_missing : Text → ℕ → ℕ → ℕ → StoreCall
  observe_github_runner_missing : Text → ℕ → ℕ → ℕ → StoreCall
  clear_provider_missing clear_github_missing : Text → StoreCall
  record_runner_seen clear_runner_missing : Text → StoreCall
  defer_reconciliation : Text → Text → ℕ → ℕ → Bool → Bool → StoreCall
  defer_rate_limited_cleanup : Text → Text → ℕ → ℕ → Bool → StoreCall
  defer_orphan_cleanup : Text → Text → ℕ → StoreCall
  requeue_missing_runner : Text → ℕ → StoreCall
  prune_deleted : StoreCall

-- The value that a method returns beside its error.
abbrev pub StoreValue : StoreCall → Type 0
StoreValue (create _) = Bool
StoreValue (get_record _) = Option Record
StoreValue (owns_runner _ _ _) = Bool
StoreValue (claim_next _ _) = Option (Record × WorkKind)
StoreValue (finish_deleted_runner _ _) = Bool
StoreValue (begin_cleanup_attempt _ _) = ℕ × Bool
StoreValue (list_expired _) = List Record
StoreValue list_provisioned = List Record
StoreValue list_orphaned = List Record
StoreValue known_instance_ids = List Text
StoreValue (release_swept_orphans _ _) = ℕ
StoreValue (observe_runner_missing _ _ _ _) = Bool
StoreValue (observe_github_runner_missing _ _ _ _) = Bool
StoreValue prune_deleted = ℕ
StoreValue _ = Unit {0}

-- `gh.JobStatus`
pub data JobStatus : Type 0 where
  job_queued job_in_progress job_completed : JobStatus

-- `gh.RunnerStatus`
pub data RunnerStatus : Type 0 where
  runner_missing runner_offline runner_online : RunnerStatus

-- `gh.JITConfig`
pub record JitConfig : Type 0 where
  pub runner_id : ℕ
  pub encoded_config : Text

-- `compute.RunnerInstance`
pub record RunnerInstance : Type 0 where
  pub id : Text
  pub name : Text

-- `compute.RunnerParams`
pub record RunnerParams : Type 0 where
  pub job_key : Text
  pub provision_epoch : ℕ
  pub runner_name : Text
  pub runner_jit_config : Text
  pub runner_version : Text
  pub runner_sha256 : Text
  pub chef_installer_sha256 : Text

pub data Call : Type 0 where
  store : StoreCall → Call
  -- `GitHubClient`
  trusted_workflow_run : Text → Text → ℕ → Call
  workflow_job_status : Text → Text → ℕ → Call
  generate_jit_config : Text → Text → Text → ℕ → List Text → Call
  repo_runner_status : Text → Text → ℕ → Call
  remove_repo_runner : Text → Text → ℕ → Call
  -- `ComputeClient` and the interfaces that a client may have besides
  find_runner : Text → Call
  create_runner : RunnerParams → Call
  delete_runner : Text → Text → Call
  cleanup_runner : Text → Call
  cleanup_runner_except : Text → Text → Call
  runner_absent : Text → Call
  sweep_orphaned_runners : List Text → ℕ → Call
  -- ctx.Err() != nil, of the context that bounds the work and of the handler's own
  context_ended parent_ended : Call
  -- time.Now()
  time_now : Call
  -- A slot for the request, within the time that one waits for it.
  ingest_slot : Call
  -- h.signal()
  signal : Call

abbrev pub Answer : Call → Type 0
Answer (store c) = Outcome (StoreValue c)
Answer (trusted_workflow_run _ _ _) = Outcome Bool
Answer (workflow_job_status _ _ _) = Outcome JobStatus
Answer (generate_jit_config _ _ _ _ _) = Outcome JitConfig
Answer (repo_runner_status _ _ _) = Outcome RunnerStatus
Answer (remove_repo_runner _ _ _) = Outcome (Unit {0})
Answer (find_runner _) = Outcome (Option RunnerInstance)
Answer (create_runner _) = Outcome RunnerInstance
Answer (delete_runner _ _) = Outcome (Unit {0})
Answer (cleanup_runner _) = Outcome (Unit {0})
Answer (cleanup_runner_except _ _) = Outcome (Unit {0})
Answer (runner_absent _) = Outcome Bool
Answer (sweep_orphaned_runners _ _) = Outcome ℕ
Answer context_ended = Bool
Answer parent_ended = Bool
Answer time_now = ℕ
Answer ingest_slot = Bool
Answer signal = Unit {0}
