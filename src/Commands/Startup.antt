-- ===== src/Commands/Startup.antt =====
-- cmd/webhook/main.go: the check of the token's scope before the service starts, and what ends it. The
-- clock, the random numbers, the wait and the context are calls.
pub mod Budget
use github_runners_infra.Program
use github_runners_infra.Prelude.{
  ℕ, zero, suc, ◌+◌, ◌-◌, ◌*◌, ◌%◌, ◌^◌, Option, none, some, Text, ◌++◌, codes, itoa, ltb,
  if◌then◌else◌, ◌==◌,
}
use github_runners_infra.Webhook.Limits.{second, minute}
use github_runners_infra.Webhook.Failure.{Failure, wrap, new_error}
use github_runners_infra.Program.{done, ◌>>=◌}
use github_runners_infra.GitHub.Errors.{add_duration}

pub data Call : Type 0 where
  time_now : Call
  -- ctx.Err()
  context_err : Call
  validate : Call
  -- rand.Int64N
  random : ℕ → Call
  -- The delay is in 64 bits, as two's complement.
  wait : ℕ → Call

-- An error, or none.
abbrev pub Answer : Call → Type 0
Answer time_now = ℕ
Answer context_err = Option Failure
Answer validate = Option Failure
Answer (random _) = ℕ
Answer (wait _) = Option Failure

abbrev pub Prog : Type 0 → Type 0
Prog A = Program.Prog Answer A

abbrev pub History : Type 0
History = Program.History Answer

abbrev pub Environment : Type 0
Environment = Program.Environment Answer

abbrev pub call : (c : Call) → Prog (Answer c)
call c = Program.ask c Program.done

abbrev pub event : (c : Call) → Answer c → Program.Event Answer
event c r = record { asked = c; answered = r }

-- tokenValidationRetryPolicy
pub record RetryPolicy : Type 0 where
  pub min_delay : ℕ
  pub jitter : ℕ
  pub max_elapsed : ℕ
  pub max_attempts : ℕ
  -- max_elapsed, as the message shows it.
  pub budget : Text

-- resetAt.Sub(now), which stops at the largest duration, and at least the delay of the policy.
unfoldable pub delay_until : RetryPolicy → ℕ → ℕ → ℕ
delay_until policy reset_at now =
    let left = reset_at - now in
    let delay = if ltb left (2 ^ 63) then left else 2 ^ 63 - 1 in
    if ltb delay policy.min_delay then policy.min_delay else delay

unfoldable pub with_jitter : RetryPolicy → ℕ → Prog ℕ
with_jitter policy delay =
    if ltb 0 policy.jitter
    then (call (random policy.jitter) >>= λ r. done ((delay + r) % 2 ^ 64))
    else done delay

-- The end of a wait, and the next attempts `again`.
unfoldable pub after_wait : Prog (Option Failure) → Option Failure → Prog (Option Failure)
after_wait again none = again
after_wait again (some e) = done (some e)

unfoldable pub wait_within :
    RetryPolicy → ℕ → Failure → Prog (Option Failure) → ℕ → Prog (Option Failure)
unfolding add_duration after_wait
wait_within policy started e again delay = call time_now >>= λ now.
    if ltb (started + policy.max_elapsed) (add_duration now delay)
    then done (
        some (
          wrap
            (codes "GitHub token-scope validation throttle exceeds "
              ++ (policy.budget ++ codes " startup budget"))
            e))
    else (call time_now >>= λ _. call (wait delay) >>= after_wait again)

unfoldable pub rate_limited :
    RetryPolicy → ℕ → ℕ → ℕ → Failure → Prog (Option Failure) → Option ℕ → Prog (Option Failure)
unfolding delay_until with_jitter wait_within
rate_limited policy started attempt left e again none = done (some e)
rate_limited policy started attempt left e again (some reset_at) =
    if left == 0
    then done (
        some (
          wrap
            (codes "GitHub token-scope validation remained rate limited after "
              ++ (itoa attempt ++ codes " attempts"))
            e))
    else (call time_now >>= λ now.
        with_jitter policy (delay_until policy reset_at now) >>= wait_within policy started e again)

unfoldable pub after_validate :
    RetryPolicy → ℕ → ℕ → ℕ → Prog (Option Failure) → Option Failure → Prog (Option Failure)
unfolding rate_limited
after_validate policy started attempt left again none = done none
after_validate policy started attempt left again (some e) =
    rate_limited policy started attempt left e again e.rate_limit

unfoldable pub unless_ended : Prog (Option Failure) → Option Failure → Prog (Option Failure)
unless_ended go none = go
unless_ended go (some e) = done (some e)

-- The attempts from the number `attempt` on, of which there are `left`.
unfoldable pub attempts : RetryPolicy → ℕ → ℕ → ℕ → Prog (Option Failure)
unfolding after_validate unless_ended
attempts policy started attempt zero =
    done (some (new_error (codes "GitHub token-scope validation retry policy is invalid")))
attempts policy started attempt (suc left) =
    let again = attempts policy started (attempt + 1) left in
    call context_err
    >>= unless_ended (call validate >>= after_validate policy started attempt left again)

-- `validateGitHubTokenScopeWithPolicy`
unfoldable pub validate_token_scope_with_policy : RetryPolicy → Prog (Option Failure)
unfolding attempts
validate_token_scope_with_policy policy =
    call time_now >>= λ started. attempts policy started 1 policy.max_attempts

-- `validateGitHubTokenScope`
unfoldable pub validate_token_scope : Prog (Option Failure)
unfolding validate_token_scope_with_policy
validate_token_scope = validate_token_scope_with_policy (record {
  min_delay = 5 * second;
  jitter = second;
  max_elapsed = 5 * minute;
  max_attempts = 5;
  budget = codes "5m0s";
})
