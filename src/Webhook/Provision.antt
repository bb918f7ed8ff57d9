-- ===== src/Webhook/Provision.antt =====
-- internal/webhook/handler.go, `provision`.
pub mod Steps
use github_runners_infra.Prelude.{
  ◌==◌, true, none, some, Option, Text, ◌++◌, codes, itoa, if◌then◌else◌,
}
use github_runners_infra.Record.{Record}
use github_runners_infra.Webhook.RunnerName.{runner_name}
use github_runners_infra.Webhook.Failure.{Failure, Outcome, good, bad, wrap, new_error}
use github_runners_infra.Webhook.Calls.{
  StoreCall, store, JitConfig, RunnerInstance, RunnerParams, find_runner, create_runner,
  delete_runner, remove_repo_runner, generate_jit_config, signal,
}
use github_runners_infra.Program.{done, ask, ◌>>=◌, ◌>>◌}
use github_runners_infra.Webhook.Program.{Prog, call, store_call}
use github_runners_infra.Webhook.Handler.{Handler, owns_registration}
use github_runners_infra.Webhook.Demand.{provision_failed, require_queued_job}

module _ (h : Handler) (r : Record) where
  abbrev pub name_of_runner : Text
  name_of_runner = runner_name h.sha256 r.repository r.job_id

  -- The record after `MarkJITCreated`.
  abbrev pub with_jit : JitConfig → Record
  with_jit jit = record r {
    github_runner_id = jit.runner_id;
    github_runner_owned = true;
    runner_name = name_of_runner;
  }

  abbrev pub params : JitConfig → RunnerParams
  params jit = record {
    job_key = r.key;
    provision_epoch = r.provision_epoch;
    runner_name = name_of_runner;
    runner_jit_config = jit.encoded_config;
    runner_version = h.runner_version;
    runner_sha256 = h.runner_sha256;
    chef_installer_sha256 = h.chef_installer_sha256;
  }

  -- The instance is created and recorded.
  unfoldable pub create_instance : JitConfig → Prog (Unit {0})
  create_instance jit = ask (create_runner (params jit)) (elim [
    | bad e ↦ provision_failed h (with_jit jit) (wrap (codes "create runner instance") e)
    | good instance_made ↦
        ask (store (StoreCall.mark_provisioned r.key instance_made.id jit.runner_id name_of_runner))
          (elim [
            | bad e ↦
                provision_failed h (with_jit jit) (wrap (codes "persist provisioned runner") e)
            | good _ ↦ call signal
          ])
  ])

  -- The second check of the demand.
  unfoldable pub confirm_demand : JitConfig → Prog (Unit {0})
  unfolding create_instance
  confirm_demand jit = do
    queued ← require_queued_job h (with_jit jit)
    if queued then create_instance jit else done tt

  unfoldable pub register : Prog (Unit {0})
  unfolding confirm_demand
  register =
      ask
        (generate_jit_config r.owner r.repository name_of_runner h.limits.runner_group_id r.labels)
        (elim [
          | bad e ↦ provision_failed h r (wrap (codes "generate JIT config") e)
          | good jit ↦
              ask (store (StoreCall.mark_jit_created r.key jit.runner_id name_of_runner)) (elim [
                | bad e ↦ do
                  call (remove_repo_runner r.owner r.repository jit.runner_id)
                  provision_failed h r (wrap (codes "persist JIT runner identity") e)
                | good _ ↦ confirm_demand jit
              ])
        ])

  -- A registration of an earlier attempt is removed first.
  unfoldable pub replace_registration : Prog (Unit {0})
  unfolding register
  replace_registration =
      if owns_registration r
      then ask (remove_repo_runner r.owner r.repository r.github_runner_id) (elim [
        | bad e ↦
            provision_failed h r
              (wrap (codes "remove stale JIT runner " ++ itoa r.github_runner_id) e)
        | good _ ↦ ask (store (StoreCall.clear_jit r.key)) (elim [
          | bad e ↦ provision_failed h r (wrap (codes "clear stale JIT runner state") e)
          | good _ ↦ register
        ])
      ])
      else register

  removal_error : Outcome (Unit {0}) → Failure
  removal_error (good _) = new_error (codes "removed runner with missing JIT identity")
  removal_error (bad e) = wrap (codes "delete runner with missing JIT identity") e

  -- An earlier attempt has made an instance.
  unfoldable pub adopt : RunnerInstance → Prog (Unit {0})
  unfolding removal_error
  adopt existing =
      if r.github_runner_id == 0
      then (do
        deleted ← call (delete_runner existing.id r.key)
        provision_failed h r (removal_error deleted))
      else ask
          (store (StoreCall.mark_provisioned r.key existing.id r.github_runner_id existing.name))
          (elim [
            | bad e ↦ do
              provision_failed h r (wrap (codes "persist reconciled runner") e)
              call signal
            | good _ ↦ call signal
          ])

  -- No instance exists yet.
  unfoldable pub provision_new : Prog (Unit {0})
  unfolding replace_registration
  provision_new = do
    queued ← require_queued_job h r
    if queued then replace_registration else done tt

  -- `provision`
  unfoldable pub provision : Prog (Unit {0})
  unfolding adopt provision_new
  provision = ask (find_runner r.key) (elim [
    | bad e ↦ provision_failed h r (wrap (codes "reconcile runner instance") e)
    | good (some existing) ↦ adopt existing
    | good none ↦ provision_new
  ])
