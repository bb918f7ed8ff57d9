-- ===== src/Store/Operations.antt =====
-- The operations of the store as a step relation, and what holds of every store that they reach.
pub mod Durable
pub mod Reach
use github_runners_infra.Prelude.{ℕ, Bool, List, Option, Text}
use github_runners_infra.Record.{Record, WorkKind}
use github_runners_infra.Store.{FileStore, Os}
use github_runners_infra.Store.Save.Outcome.{RollbackWorks}
use github_runners_infra.Store.Update.{update_with, update}
use github_runners_infra.Store.Methods.{mark_provisioned, index_runner}
use github_runners_infra.Store.Claim.{claim_next, set_max_live_runners}
use github_runners_infra.Store.Observe.{
  observe_runner_missing, observe_github_runner_missing, mark_deletion_accepted,
  begin_cleanup_attempt,
}
use github_runners_infra.Store.Completion.{create, record_completion}
use github_runners_infra.Store.Registration.{mark_jit_created}
use github_runners_infra.Store.Sweep.{release_swept_orphans, prune_deleted}
use github_runners_infra.Store.Open.{close}

-- One call of a method, with any arguments and any answers of the operating system but a rollback
-- that fails. The methods of `Store.Methods` are the calls of `update` and `update_with`.
pub data Step (s : FileStore) : FileStore → Type 1 where
  updated :
      {A : Type 0} (os : Os) (now : ℕ) (key : Text) (mutate : Record → Record × A)
      → RollbackWorks os
      → Step s (update_with os now key mutate s).1
  provisioned :
      (os : Os) (at now : ℕ) (key instance_id : Text) (runner_id : ℕ) (runner_name : Text)
      → RollbackWorks os
      → Step s (mark_provisioned os at now key instance_id runner_id runner_name s).1
  -- `MarkProvisioned` gives the lock back before it enters the identity: its first half is then an
  -- `updated`, and other steps may come in between.
  identity_indexed :
      (key : Text) (indexed_as : Option Record) → Step s (index_runner key indexed_as s).1
  claimed :
      (os : Text → Os) (before after : Bool) (now max_attempts : ℕ)
      → ((key : Text) → RollbackWorks (os key))
      → Step s (claim_next os before after now max_attempts s).1
  limited : (limit : ℕ) → Step s (set_max_live_runners limit s).1
  provider_observed :
      (os : Os) (key : Text) (now settle_window confirmations : ℕ)
      → RollbackWorks os
      → Step s (observe_runner_missing os key now settle_window confirmations s).1
  github_observed :
      (os : Os) (key : Text) (now settle_window confirmations : ℕ)
      → RollbackWorks os
      → Step s (observe_github_runner_missing os key now settle_window confirmations s).1
  deletion_accepted :
      (os : Os) (key : Text) (now : ℕ) (instance_id : Text)
      → RollbackWorks os
      → Step s (mark_deletion_accepted os key now instance_id s).1
  cleanup_begun :
      (os : Os) (key : Text) (due now max_attempts : ℕ)
      → RollbackWorks os
      → Step s (begin_cleanup_attempt os key due now max_attempts s).1
  created : (os : Os) (now : ℕ) (r : Record) → RollbackWorks os → Step s (create os now r s).1
  completed :
      (os : Os) (now : ℕ) (completion : Record)
      → RollbackWorks os
      → Step s (record_completion os now completion s).1
  jit_created :
      (os : Os) (now : ℕ) (key : Text) (runner_id : ℕ) (runner_name : Text)
      → RollbackWorks os
      → Step s (mark_jit_created os now key runner_id runner_name s).1
  swept :
      (os : Os) (clock : Text → ℕ) (provider : Text) (cutoff : ℕ)
      → RollbackWorks os
      → Step s (release_swept_orphans os clock provider cutoff s).1
  pruned : (os : Os) (now : ℕ) → RollbackWorks os → Step s (prune_deleted os now s).1
  closed : Step s (close s)

pub data Reaches (s : FileStore) : FileStore → Type 1 where
  start : Reaches s s
  then_step : {t u : FileStore} → Reaches s t → Step t u → Reaches s u
