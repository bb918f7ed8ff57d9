-- ===== src/GitHub/Errors.antt =====
-- internal/github/runner.go: `apiStatusError` and `retryAtFromHeaders`, with what
-- `PersistentClientError` and `RateLimitReset` find in the errors that they make.
pub mod Classes
pub mod Retry
use github_runners_infra.Prelude.{
  ℕ, ◌+◌, ◌-◌, ◌*◌, ◌%◌, ◌^◌, Bool, true, false, ◌&&◌, ◌||◌, not, Option, none, some, Text, ◌++◌,
  codes, itoa, text_eq, is_empty, ltb, leb, ◌==◌, if◌then◌else◌, ℤ, pos, negsuc, parse_int,
  positive,
}
use github_runners_infra.Webhook.Limits.{second, minute}
use github_runners_infra.Webhook.Failure.{Failure, new_error}
use github_runners_infra.GitHub.Http.{Headers, Reply, Library, Prog, call, time_now}
use github_runners_infra.Program.{done, ◌>>=◌}

-- now.Add(d), with the duration d in 64 bits as two's complement.
unfoldable pub add_duration : ℕ → ℕ → ℕ
add_duration now d = if ltb d (2 ^ 63) then now + d else now + d - 2 ^ 64

-- now.Add(time.Duration(seconds) * time.Second): the product wraps around.
unfoldable pub add_seconds : ℕ → ℕ → ℕ
unfolding add_duration
add_seconds now seconds = add_duration now (seconds * second % 2 ^ 64)

-- time.Unix(s, 0), as the distance from Go's zero time.
unfoldable pub unix_time : ℕ → ℕ
unix_time s = (62135596800 + s) * second

-- The seconds of a `Retry-After` header that has a number.
abbrev pub retry_seconds : Option ℤ → Option ℕ
retry_seconds none = none
retry_seconds (some (pos n)) = some n
retry_seconds (some (negsuc _)) = none

-- The end of `retryAtFromHeaders`: `X-RateLimit-Reset`, or a minute.
unfoldable pub reset_time : ℕ → Headers → ℕ
unfolding unix_time
reset_time now headers = elim (positive (parse_int headers.rate_limit_reset)) [
  | some s ↦ unix_time s
  | none ↦ now + minute
]

-- `retryAtFromHeaders`
unfoldable pub retry_at_from_headers : Library → ℕ → Headers → ℕ
unfolding add_seconds reset_time
retry_at_from_headers lib now headers =
    if is_empty headers.retry_after
    then reset_time now headers
    else elim (retry_seconds (parse_int headers.retry_after)) [
      | some seconds ↦ add_seconds now seconds
      | none ↦ elim (lib.parse_http_time headers.retry_after) [
        | some at ↦ at
        | none ↦ reset_time now headers
      ]
    ]

-- GitHub throttles the client.
unfoldable pub is_throttled : Reply → Bool
is_throttled reply =
    reply.status == 429
    || (reply.status == 403
        && (not (is_empty reply.headers.retry_after)
            || text_eq reply.headers.rate_limit_remaining (codes "0")))

-- What `PersistentClientError` says of the status.
unfoldable pub is_persistent : ℕ → Bool
is_persistent status =
    leb 400 status
    && ltb status 500
    && not (status == 408)
    && not (status == 409)
    && not (status == 422)
    && not (status == 429)

abbrev blank : Text → Failure
blank message = record {
  message = message;
  canceled = false;
  rate_limit = none;
  has_status = false;
  persistent = false;
  ownership_mismatch = false;
  duplicate_instances = false;
  outcome_unknown = false;
}

-- RateLimitError
unfoldable pub rate_limit_error : Library → ℕ → Reply → Failure
unfolding retry_at_from_headers
rate_limit_error lib now reply =
    let reset_at = retry_at_from_headers lib now reply.headers in
    record (new_error (
      codes "GitHub API rate limited request with status "
      ++ (itoa reply.status ++ (codes " until " ++ lib.format_time reset_at)))) {
        rate_limit = some reset_at;
      }

-- APIStatusError
unfoldable pub status_error : ℕ → Text → Failure
unfolding is_persistent
status_error status action =
    record (new_error (codes "unexpected status " ++ (itoa status ++ (codes " " ++ action)))) {
      has_status = true;
      persistent = is_persistent status;
    }

unfoldable pub api_status_error : Library → Reply → Text → Prog Failure
unfolding is_throttled status_error
api_status_error lib reply action =
    if is_throttled reply
    then (call time_now >>= λ now. done (rate_limit_error lib now reply))
    else done (status_error reply.status action)
