-- ===== src/Webhook/Worker.antt =====
-- internal/webhook/handler.go, `worker` and `process`.
pub mod Ends
use github_runners_infra.Prelude.{
  Bool, true, false, not, Option, none, some, Text, ◌∷◌, ◌++◌, text_eq, codes, if◌then◌else◌,
}
use github_runners_infra.Record.{Record, WorkKind, no_work, work_provision, work_delete}
use github_runners_infra.Webhook.Failure.{Failure, good, bad, new_error}
use github_runners_infra.Webhook.Calls.{StoreCall, store, parent_ended, time_now}
use github_runners_infra.Program.{done, ask, ◌>>=◌, ◌>>◌}
use github_runners_infra.Webhook.Program.{Prog, call, store_call}
use github_runners_infra.Webhook.Handler.{Handler}
use github_runners_infra.Webhook.Retreat.{mark_orphaned}
use github_runners_infra.Webhook.Provision.{provision}
use github_runners_infra.Webhook.Deletion.{delete}

-- `%q` of a text that needs no escapes.
unfoldable pub quoted : Text → Text
quoted s = b'"' ∷ s ++ (b'"' ∷ codes "")

unfoldable pub provider_mismatch : Handler → Record → Failure
provider_mismatch h r = new_error (
    codes "state record belongs to provider "
    ++ (quoted r.provider ++ (codes ", controller is configured for " ++ quoted h.provider)))

unfoldable pub work_on : Handler → Record → WorkKind → Prog (Unit {0})
work_on h r work_provision = provision h r
work_on h r work_delete = delete h r
work_on h r no_work = done tt

-- `process`
unfoldable pub process : Handler → Record → WorkKind → Prog (Unit {0})
unfolding work_on provider_mismatch
process h r kind = do
  ended ← call parent_ended
  if ended
      then (do store_call (StoreCall.release_claim r.key kind); done tt)
      else if not (text_eq r.provider h.provider)
      then (do mark_orphaned r (provider_mismatch h r); done tt)
      else work_on h r kind

-- How a round of `worker` ends: the loop stops, goes on at once, or waits for a signal or a tick.
pub data Round : Type 0 where
  stop again wait : Round

claimed_round : Handler → Option (Record × WorkKind) → Prog Round
unfolding process
claimed_round h none = done wait
claimed_round h (some (r, kind)) = do
  ended ← call parent_ended
  if ended
      then (do store_call (StoreCall.release_claim r.key kind); done stop)
      else (do process h r kind; done again)

-- A round of `worker`.
unfoldable pub worker_round : Handler → Prog Round
unfolding claimed_round
worker_round h = do
  ended ← call parent_ended
  if ended then done stop else (do
    now ← call time_now
    ask (store (StoreCall.claim_next now h.limits.max_attempts)) (elim [
      | good claimed ↦ claimed_round h claimed
      | bad _ ↦ do stopped ← call parent_ended; done (if stopped then stop else wait)
    ]))
