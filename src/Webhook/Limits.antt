-- ===== src/Webhook/Limits.antt =====
-- internal/webhook/handler.go, `resolveHandlerLimits`. Durations are in nanoseconds.
pub mod Resolved
use github_runners_infra.Prelude.{
  refl, ℕ, zero, suc, ◌*◌, ◌<◌, ◌||◌, ◌≡◌, ltb, if◌then◌else◌, ℤ, pos, negsuc,
}
use github_runners_infra.Webhook.{
  Checked, accepted, refused, runner_age_too_short, cancelled_ttl_too_short,
  registration_timeout_out_of_range,
}

-- time.Second, time.Minute and time.Hour
abbrev pub second : ℕ
second = 1000000000

abbrev pub minute : ℕ
minute = 60000000000

abbrev pub hour : ℕ
hour = 3600000000000

-- The fields of `Config` that are limits.
pub record LimitConfig : Type 0 where
  pub worker_count : ℤ
  pub max_live_runners : ℤ
  pub max_attempts : ℤ
  pub poll_interval : ℤ
  pub max_runner_age : ℤ
  pub cancelled_runner_ttl : ℤ
  pub registration_timeout : ℤ
  pub liveness_settle_window : ℤ
  pub liveness_confirmations : ℤ
  pub runner_group_id : ℤ

-- `handlerLimits`, where all fields are positive.
pub record HandlerLimits : Type 0 where
  pub worker_count : ℕ
  pub max_live_runners : ℕ
  pub max_attempts : ℕ
  pub poll_interval : ℕ
  pub max_runner_age : ℕ
  pub cancelled_runner_ttl : ℕ
  pub registration_timeout : ℕ
  pub liveness_settle_window : ℕ
  pub liveness_confirmations : ℕ
  pub runner_group_id : ℕ

-- if value <= 0 { value = fallback }
unfoldable pub or_default : ℤ → ℕ → ℕ
or_default (pos zero) fallback = fallback
or_default (pos (suc n)) fallback = suc n
or_default (negsuc n) fallback = fallback

-- The limits with their defaults.
unfoldable pub with_defaults : LimitConfig → HandlerLimits
unfolding or_default
with_defaults cfg = record {
  worker_count = or_default cfg.worker_count 4;
  max_live_runners = or_default cfg.max_live_runners 20;
  max_attempts = or_default cfg.max_attempts 5;
  poll_interval = or_default cfg.poll_interval second;
  max_runner_age = or_default cfg.max_runner_age (6 * hour);
  cancelled_runner_ttl = or_default cfg.cancelled_runner_ttl (5 * minute);
  registration_timeout = or_default cfg.registration_timeout (10 * minute);
  liveness_settle_window = or_default cfg.liveness_settle_window (2 * minute);
  liveness_confirmations = or_default cfg.liveness_confirmations 3;
  runner_group_id = or_default cfg.runner_group_id 1;
}

unfoldable pub check_limits : HandlerLimits → Checked HandlerLimits
check_limits limits =
    if ltb limits.max_runner_age hour
    then refused runner_age_too_short
    else if ltb limits.cancelled_runner_ttl minute
    then refused cancelled_ttl_too_short
    else if ltb limits.registration_timeout minute || ltb hour limits.registration_timeout
    then refused registration_timeout_out_of_range
    else accepted limits

-- `resolveHandlerLimits`: the limits, or an error.
unfoldable pub resolve_handler_limits : LimitConfig → Checked HandlerLimits
unfolding check_limits
resolve_handler_limits cfg = check_limits (with_defaults cfg)
