-- ===== src/Webhook/Reaper.antt =====
-- internal/webhook/handler.go, `expireRunners` and the loops over the store's lists that it makes. The
-- results are the errors that were met.
use github_runners_infra.Prelude.{
  ℕ, ◌+◌, ◌-◌, Bool, true, false, ◌||◌, not, Option, none, some, List, [], ◌∷◌, ◌++◌, codes, itoa,
  is_empty, text_eq, if◌then◌else◌,
}
use github_runners_infra.Record.{Record}
use github_runners_infra.Webhook.Failure.{Failure, Outcome, good, bad, wrap, failed}
use github_runners_infra.Webhook.Calls.{
  StoreCall, store, remove_repo_runner, runner_absent, sweep_orphaned_runners, time_now, signal,
}
use github_runners_infra.Program.{done, ask, ◌>>=◌, ◌>>◌}
use github_runners_infra.Webhook.Program.{Prog, call, store_call}
use github_runners_infra.Webhook.Handler.{Handler, owns_registration}
use github_runners_infra.Webhook.Retreat.{retry_after, retry_time}
use github_runners_infra.Webhook.Liveness.{is_ahead, reconcile_provisioned_runner}
use github_runners_infra.Webhook.Expiry.{persisted, expire_runner}

abbrev Errors : Type 0
Errors = Prog (List Failure)

-- A step for each record, in order.
unfoldable pub for_each : (Record → Errors) → List Record → Errors
for_each step [] = done []
for_each step (r ∷ rest) = step r >>= λ errors. for_each step rest >>= λ more. done (errors ++ more)

abbrev error_list : Option Failure → List Failure
error_list none = []
error_list (some e) = e ∷ []

abbrev prune_errors : Option Failure → List Failure
prune_errors none = []
prune_errors (some e) = wrap (codes "prune deleted lifecycle records") e ∷ []

module _ (h : Handler) where
  unfoldable pub release_if_absent : Record → Errors
  release_if_absent r =
      if not (text_eq r.provider h.provider) || is_empty r.instance_id
      then done []
      else ask (runner_absent r.instance_id) (elim [
        | bad e ↦ done (e ∷ [])
        | good false ↦ done []
        | good true ↦ ask (store (StoreCall.release_absent_orphan r.key r.instance_id)) (elim [
          | bad e ↦ done (wrap (codes "release absent orphan " ++ r.key) e ∷ [])
          | good _ ↦ do call signal; done []
        ])
      ])

  -- `reconcileOrphanedInstances`
  unfoldable pub reconcile_orphaned_instances : Errors
  unfolding release_if_absent for_each
  reconcile_orphaned_instances =
      if h.confirms_absence
      then ask (store StoreCall.list_orphaned) (elim [
        | bad e ↦ done (wrap (codes "list orphaned provider instances") e ∷ [])
        | good records ↦ for_each release_if_absent records
      ])
      else done []

  unfoldable pub deregister_record : Record → Errors
  deregister_record r = ask (remove_repo_runner r.owner r.repository r.github_runner_id) (elim [
    | bad e ↦ do
      retry_at ← retry_time e.rate_limit (retry_after (r.reconcile_failures + 1))
      stored ← store_call (StoreCall.defer_orphan_cleanup r.key e.message retry_at)
      done (persisted e (codes "persist orphan GitHub cleanup backoff") (failed stored) ∷ [])
    | good _ ↦ ask (store (StoreCall.clear_jit r.key)) (elim [
      | bad e ↦
          done (wrap (codes "clear orphaned GitHub runner " ++ itoa r.github_runner_id) e ∷ [])
      | good _ ↦ done []
    ])
  ])

  unfoldable pub deregister_if_due : Record → Errors
  unfolding deregister_record
  deregister_if_due r =
      if not (owns_registration r)
      then done []
      else (do ahead ← is_ahead r.next_attempt_at; if ahead then done [] else deregister_record r)

  -- `reconcileOrphanedGitHubRunners`
  unfoldable pub reconcile_orphaned_github_runners : Errors
  unfolding deregister_if_due for_each
  reconcile_orphaned_github_runners = ask (store StoreCall.list_orphaned) (elim [
    | bad e ↦ done (wrap (codes "list orphaned GitHub runners") e ∷ [])
    | good records ↦ for_each deregister_if_due records
  ])

  unfoldable pub reconciled : Outcome Bool → Errors
  reconciled (bad e) = done (e ∷ [])
  reconciled (good true) = do call signal; done []
  reconciled (good false) = done []

  unfoldable pub reconcile_if_ours : Record → Errors
  unfolding reconciled
  reconcile_if_ours r =
      if not (text_eq r.provider h.provider)
      then done []
      else reconcile_provisioned_runner h r >>= reconciled

  -- `reconcileProvisionedRunners`
  unfoldable pub reconcile_provisioned_runners : Errors
  unfolding reconcile_if_ours for_each
  reconcile_provisioned_runners = ask (store StoreCall.list_provisioned) (elim [
    | bad e ↦ done (wrap (codes "list provisioned runners") e ∷ [])
    | good records ↦ for_each reconcile_if_ours records
  ])

  -- The sweep of `reconcileLiveness`.
  unfoldable pub sweep : ℕ → Errors
  sweep cutoff = ask (store StoreCall.known_instance_ids) (elim [
    | bad e ↦ done (wrap (codes "list known provider instances") e ∷ [])
    | good known ↦ ask (sweep_orphaned_runners known cutoff) (elim [
      | bad e ↦ done (wrap (codes "sweep orphaned provider instances") e ∷ [])
      | good _ ↦ ask (store (StoreCall.release_swept_orphans h.provider cutoff)) (elim [
        | bad e ↦ done (wrap (codes "release swept orphan admission") e ∷ [])
        | good _ ↦ done []
      ])
    ])
  ])

  -- `reconcileLiveness`
  unfoldable pub reconcile_liveness : ℕ → Errors
  unfolding reconcile_orphaned_instances reconcile_orphaned_github_runners sweep
      reconcile_provisioned_runners
  reconcile_liveness cutoff = do
    instances ← reconcile_orphaned_instances
    runners ← reconcile_orphaned_github_runners
    swept ← sweep cutoff
    provisioned ← reconcile_provisioned_runners
    done (instances ++ (runners ++ (swept ++ provisioned)))

  unfoldable pub expire_one : Record → Errors
  expire_one r = expire_runner h r >>= λ e. done (error_list e)

  unfoldable pub expire_records : List Record → Errors
  unfolding expire_one for_each
  expire_records [] = done []
  expire_records (r ∷ rest) = do errors ← for_each expire_one (r ∷ rest); call signal; done errors

  -- `expireAged`
  unfoldable pub expire_aged : ℕ → Errors
  unfolding expire_records
  expire_aged cutoff =
      ask (store (StoreCall.list_expired cutoff))
        (elim [ bad e ↦ done (e ∷ []) | good records ↦ expire_records records ])

  -- `expireRunners`
  unfoldable pub expire_runners : Errors
  unfolding reconcile_liveness expire_aged
  expire_runners = do
    now ← call time_now
    pruned ← store_call StoreCall.prune_deleted
    live ← reconcile_liveness (now - h.limits.max_runner_age)
    aged ← expire_aged (now - h.limits.max_runner_age)
    done (prune_errors (failed pruned) ++ (live ++ aged))
