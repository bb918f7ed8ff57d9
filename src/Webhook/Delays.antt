-- ===== src/Webhook/Delays.antt =====
-- internal/webhook/handler.go: when a failed piece of work is tried again.
use github_runners_infra.Prelude.{ℕ, ◌+◌, ◌-◌, ◌*◌, ◌%◌, ◌^◌, ltb, if◌then◌else◌, ℤ, pos, negsuc}
use github_runners_infra.Record.{after}
use github_runners_infra.Webhook.Limits.{second}

-- if attempt < 1 { attempt = 1 }; if attempt > 6 { attempt = 6 }
clamp_attempt : ℤ → ℕ
clamp_attempt (negsuc n) = 1
clamp_attempt (pos n) = if ltb n 1 then 1 else if ltb 6 n then 6 else n

-- `retryDelay`
unfoldable pub retry_delay : ℤ → ℕ
unfolding clamp_attempt
retry_delay attempt = 2 ^ (clamp_attempt attempt - 1) * 5 * second

-- `clampThrottleRetryAt`, at the clock's reading `now`. Unix time and Go's zero time differ by whole
-- seconds, so that the rest modulo a second is the same.
unfoldable pub clamp_throttle_retry_at : ℕ → ℕ → ℕ
clamp_throttle_retry_at now retry_at =
    let floor = now + 5 * second in if after retry_at floor then retry_at else floor + now % second
