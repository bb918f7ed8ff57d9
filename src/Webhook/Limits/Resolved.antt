-- ===== src/Webhook/Limits/Resolved.antt =====
-- internal/webhook/handler.go, `resolveHandlerLimits`: which limits it gives and which it refuses.
use github_runners_infra.Prelude.{
  ℕ, ◌≤◌, ◌<◌, ◌≡◌, ◌↔◌, refl, arith, sym, subst, zero, suc, ℤ, pos, negsuc,
}
use github_runners_infra.Webhook.{accepted}
use github_runners_infra.Webhook.Limits.{
  minute, hour, LimitConfig, HandlerLimits, with_defaults, check_limits, resolve_handler_limits,
  or_default,
}

-- A value is the configured one if that is positive.
abbrev pub IsChosen : ℤ → ℕ → Type 0
IsChosen (pos zero) n = 0 < n
IsChosen (pos (suc c)) n = n ≡ suc c
IsChosen (negsuc c) n = 0 < n

or_default-IsChosen : (z : ℤ) (fallback : ℕ) → 0 < fallback → IsChosen z (or_default z fallback)
unfolding or_default
or_default-IsChosen (pos zero) fallback h = h
or_default-IsChosen (pos (suc n)) fallback h = refl
or_default-IsChosen (negsuc n) fallback h = h

-- The durations that have bounds are within them.
pub record IsInRange (limits : HandlerLimits) : Type 0 where
  pub runner_age : hour ≤ limits.max_runner_age
  pub cancelled_ttl : minute ≤ limits.cancelled_runner_ttl
  pub registration_min : minute ≤ limits.registration_timeout
  pub registration_max : limits.registration_timeout ≤ hour

-- Every limit is the configured one if that is positive, and positive.
pub record IsResolved (cfg : LimitConfig) (limits : HandlerLimits) : Type 0 where
  pub worker_count : IsChosen cfg.worker_count limits.worker_count
  pub max_live_runners : IsChosen cfg.max_live_runners limits.max_live_runners
  pub max_attempts : IsChosen cfg.max_attempts limits.max_attempts
  pub poll_interval : IsChosen cfg.poll_interval limits.poll_interval
  pub max_runner_age : IsChosen cfg.max_runner_age limits.max_runner_age
  pub cancelled_runner_ttl : IsChosen cfg.cancelled_runner_ttl limits.cancelled_runner_ttl
  pub registration_timeout : IsChosen cfg.registration_timeout limits.registration_timeout
  pub liveness_settle_window : IsChosen cfg.liveness_settle_window limits.liveness_settle_window
  pub liveness_confirmations : IsChosen cfg.liveness_confirmations limits.liveness_confirmations
  pub runner_group_id : IsChosen cfg.runner_group_id limits.runner_group_id

with_defaults-IsResolved : (cfg : LimitConfig) → IsResolved cfg (with_defaults cfg)
unfolding with_defaults
with_defaults-IsResolved cfg = record {
  worker_count = or_default-IsChosen cfg.worker_count _ (omega arith);
  max_live_runners = or_default-IsChosen cfg.max_live_runners _ (omega arith);
  max_attempts = or_default-IsChosen cfg.max_attempts _ (omega arith);
  poll_interval = or_default-IsChosen cfg.poll_interval _ (omega arith);
  max_runner_age = or_default-IsChosen cfg.max_runner_age _ (omega arith);
  cancelled_runner_ttl = or_default-IsChosen cfg.cancelled_runner_ttl _ (omega arith);
  registration_timeout = or_default-IsChosen cfg.registration_timeout _ (omega arith);
  liveness_settle_window = or_default-IsChosen cfg.liveness_settle_window _ (omega arith);
  liveness_confirmations = or_default-IsChosen cfg.liveness_confirmations _ (omega arith);
  runner_group_id = or_default-IsChosen cfg.runner_group_id _ (omega arith);
}

check_limits-accepted :
    (limits l : HandlerLimits) → check_limits limits ≡ accepted l → (l ≡ limits) × IsInRange limits
unfolding check_limits
check_limits-accepted limits l e = (
  ground arith,
  record {
    runner_age = ground arith;
    cancelled_ttl = ground arith;
    registration_min = ground arith;
    registration_max = ground arith;
  },
)

check_limits_complete :
    (limits : HandlerLimits) → IsInRange limits → check_limits limits ≡ accepted limits
unfolding check_limits
check_limits_complete limits range =
    ground
      (arith, range.runner_age, range.cancelled_ttl, range.registration_min, range.registration_max)

-- `resolveHandlerLimits` accepts a configuration exactly if the limits with their defaults are in
-- range, and then gives these; every limit that it gives is the configured one if that is positive,
-- and positive otherwise.
pub resolve_handler_limits-IsResolved :
    (cfg : LimitConfig) (limits : HandlerLimits)
    → ((resolve_handler_limits cfg ≡ accepted limits)
        ↔ ((limits ≡ with_defaults cfg) × IsInRange (with_defaults cfg)))
      × (resolve_handler_limits cfg ≡ accepted limits → IsResolved cfg limits × IsInRange limits)
unfolding resolve_handler_limits
resolve_handler_limits-IsResolved cfg limits =
    let accepts : resolve_handler_limits cfg ≡ accepted limits
        → (limits ≡ with_defaults cfg) × IsInRange (with_defaults cfg) =
      check_limits-accepted (with_defaults cfg) limits in
    (
      (accepts, λ (e, range). cc (check_limits_complete (with_defaults cfg) range, e)),
      λ h. (
        subst (IsResolved cfg) (sym (accepts h).0) (with_defaults-IsResolved cfg),
        subst IsInRange (sym (accepts h).0) (accepts h).1,
      ),
    )
