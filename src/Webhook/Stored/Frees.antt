-- ===== src/Webhook/Stored/Frees.antt =====
-- internal/state/store.go: the closures that end a worker's claim.
use github_runners_infra.Prelude.{ℕ, Bool, Text, arith}
use github_runners_infra.Record.{work_provision, work_delete}
use github_runners_infra.Record.Claims.{
  on_release_claim, on_defer_rate_limited_work, on_defer_provisioning_demand,
  on_defer_reassignment_demand,
}
use github_runners_infra.Record.Provisioning.{on_mark_provisioned, on_mark_provision_failed}
use github_runners_infra.Record.Deleting.{
  on_mark_deleted, on_finish_deleted_runner, on_mark_delete_failed, on_mark_orphaned,
}
use github_runners_infra.Webhook.Stored.{Frees}

pub on_release_claim-Frees_provision : Frees work_provision (on_release_claim work_provision)
unfolding on_release_claim
on_release_claim-Frees_provision r c t = ground arith

pub on_release_claim-Frees_delete : Frees work_delete (on_release_claim work_delete)
unfolding on_release_claim
on_release_claim-Frees_delete r c t = ground arith

pub on_defer_provisioning_demand-Frees :
    (message : Text) (retry_at : ℕ)
    → Frees work_provision (on_defer_provisioning_demand message retry_at)
unfolding on_defer_provisioning_demand
on_defer_provisioning_demand-Frees message retry_at r c t = ground arith

pub on_defer_rate_limited_work-Frees_provision :
    (message : Text) (retry_at max_attempts : ℕ)
    → Frees work_provision (on_defer_rate_limited_work work_provision message retry_at max_attempts)
unfolding on_defer_rate_limited_work
on_defer_rate_limited_work-Frees_provision message retry_at max_attempts r c t = ground arith

pub on_defer_rate_limited_work-Frees_delete :
    (message : Text) (retry_at max_attempts : ℕ)
    → Frees work_delete (on_defer_rate_limited_work work_delete message retry_at max_attempts)
unfolding on_defer_rate_limited_work
on_defer_rate_limited_work-Frees_delete message retry_at max_attempts r c t = ground arith

pub on_mark_provisioned-Frees :
    (now : ℕ) (instance_id : Text) (runner_id : ℕ) (runner_name : Text)
    → Frees work_provision (on_mark_provisioned now instance_id runner_id runner_name)
unfolding on_mark_provisioned
on_mark_provisioned-Frees now instance_id runner_id runner_name r c t = ground arith

pub on_mark_provision_failed-Frees :
    (message : Text) (retry_at max_attempts : ℕ)
    → Frees work_provision (on_mark_provision_failed message retry_at max_attempts)
unfolding on_mark_provision_failed
on_mark_provision_failed-Frees message retry_at max_attempts r c t = ground arith

pub on_mark_deleted-Frees : Frees work_provision on_mark_deleted
unfolding on_mark_deleted
on_mark_deleted-Frees r c t = ground arith

pub on_mark_orphaned-Frees_provision :
    (message : Text) → Frees work_provision (on_mark_orphaned message)
unfolding on_mark_orphaned
on_mark_orphaned-Frees_provision message r c t = ground arith

pub on_mark_orphaned-Frees_delete : (message : Text) → Frees work_delete (on_mark_orphaned message)
unfolding on_mark_orphaned
on_mark_orphaned-Frees_delete message r c t = ground arith

pub on_mark_delete_failed-Frees :
    (message : Text) (retry_at max_attempts : ℕ)
    → Frees work_delete (on_mark_delete_failed message retry_at max_attempts)
unfolding on_mark_delete_failed
on_mark_delete_failed-Frees message retry_at max_attempts r c t = ground arith

pub on_finish_deleted_runner-Frees :
    (queued : Bool) → Frees work_delete (λ r. (on_finish_deleted_runner queued r).0)
unfolding on_finish_deleted_runner
on_finish_deleted_runner-Frees queued r c t = ground arith

pub on_defer_reassignment_demand-Frees :
    (message : Text) (retry_at : ℕ)
    → Frees work_delete (on_defer_reassignment_demand message retry_at)
unfolding on_defer_reassignment_demand
on_defer_reassignment_demand-Frees message retry_at r c t = ground arith
