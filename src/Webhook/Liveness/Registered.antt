-- ===== src/Webhook/Liveness/Registered.antt =====
-- internal/webhook/handler.go: the calls of the reaper for an open job whose instance is there.
use github_runners_infra.Prelude.{◌+◌, ◌==◌, leb, not, ◌∷◌, ◌≡◌, ◌≢◌, inl, inr, refl, arith}
use github_runners_infra.Record.{Record, is_zero}
use github_runners_infra.Webhook.Failure.{good, bad}
use github_runners_infra.Webhook.Calls.{
  Call, RunnerStatus, runner_missing, runner_offline, runner_online, repo_runner_status,
}
use github_runners_infra.Webhook.Program.{Event, History, event}
use github_runners_infra.Program.Rules.{Ensures, Ensures-if}
use github_runners_infra.Webhook.Handler.{Handler}
use github_runners_infra.Webhook.Retreat.Steps.{Always}
use github_runners_infra.Webhook.Liveness.{
  record_seen, seen_as, registered_as, check_registration, job_open,
}
use github_runners_infra.Webhook.Liveness.Causes.{Saw, IsFound, IsOpen, HasCause}
use github_runners_infra.Webhook.Liveness.Missing.{
  deferred-Ensures, requeue_unregistered_runner-Ensures, reconcile_github_missing_runner-Ensures,
}

module _ (h : Handler) (r : Record) where
  abbrev P : History → Call → Type 0
  P = HasCause h r

  record_seen-Ensures : (past : History) → Ensures P Always past (record_seen h r)
  unfolding record_seen
  record_seen-Ensures past = (tt, λ stored. tt)

  -- What holds when GitHub is asked about the registration.
  pub record IsCompared (past : History) : Type 0 where
    pub found : IsFound h r past
    pub still_open : IsOpen h r past

  seen_as-Ensures :
      (status : RunnerStatus) (past : History)
      → IsCompared past
      → (status ≡ runner_offline
          → Saw
              (event
                (repo_runner_status r.owner r.repository r.github_runner_id)
                (good runner_offline))
              past)
      → Ensures P Always past (seen_as h r status)
  unfolding seen_as
  seen_as-Ensures runner_missing past c off = tt
  seen_as-Ensures runner_offline past c off =
      Ensures-if P Always past (not (is_zero r.registered_at)) _ _ (λ _. tt)
        (λ zero. (
          tt,
          λ now.
              Ensures-if P Always _ (leb (r.provisioned_at + h.limits.registration_timeout) now) _ _
                (λ late.
                  requeue_unregistered_runner-Ensures h r _ (c.found.0, inr c.found.1)
                    (c.still_open.0, c.still_open.1, c.still_open.2, inr c.still_open.3)
                    (ground arith, (now, inl refl, ground arith)) (inr (off refl)))
                (λ _. tt),
        ))
  seen_as-Ensures runner_online past c off =
      Ensures-if P Always past (is_zero r.registered_at) _ _ (λ _. record_seen-Ensures past)
        (λ _. tt)

  later-IsCompared : (past : History) (e : Event) → IsCompared past → IsCompared (e ∷ past)
  later-IsCompared past e c = record {
    found = (c.found.0, inr c.found.1);
    still_open = (c.still_open.0, c.still_open.1, c.still_open.2, inr c.still_open.3);
  }

  cleared-Ensures :
      (status : RunnerStatus) (past : History)
      → IsCompared past
      → (status ≡ runner_offline
          → Saw
              (event
                (repo_runner_status r.owner r.repository r.github_runner_id)
                (good runner_offline))
              past)
      → status ≢ runner_missing
      → Ensures P Always past (registered_as h r status)
  unfolding registered_as
  cleared-Ensures runner_missing past c off known = absurd (known refl)
  cleared-Ensures runner_offline past c off known = (
    tt,
    elim [
      | bad e ↦ tt
      | good _ ↦ seen_as-Ensures runner_offline _ (later-IsCompared past _ c) (λ e. inr (off e))
    ],
  )
  cleared-Ensures runner_online past c off known = (
    tt,
    elim [
      | bad e ↦ tt
      | good _ ↦ seen_as-Ensures runner_online _ (later-IsCompared past _ c) (λ e. inr (off e))
    ],
  )

  missing-Ensures :
      (past : History) → IsCompared past → Ensures P Always past (registered_as h r runner_missing)
  unfolding registered_as
  missing-Ensures past c = reconcile_github_missing_runner-Ensures h r past c.found

  check_registration-Ensures :
      (past : History) → IsCompared past → Ensures P Always past (check_registration h r)
  unfolding check_registration
  check_registration-Ensures past c = (
    tt,
    elim [
      | bad e ↦ deferred-Ensures h r _ _
      | good runner_missing ↦ missing-Ensures _ (later-IsCompared past _ c)
      | good runner_offline ↦
          cleared-Ensures runner_offline _ (later-IsCompared past _ c) (λ e. inl refl) (λ e. cc)
      | good runner_online ↦
          cleared-Ensures runner_online _ (later-IsCompared past _ c) (λ e. absurd (cc)) (λ e. cc)
    ],
  )

  pub job_open-Ensures : (past : History) → IsCompared past → Ensures P Always past (job_open h r)
  unfolding job_open
  job_open-Ensures past c =
      Ensures-if P Always past (r.missing_checks == 0) _ _ (λ _. check_registration-Ensures past c)
        (λ _. (
          tt,
          elim [ bad e ↦ tt | good _ ↦ check_registration-Ensures _ (later-IsCompared past _ c) ],
        ))
