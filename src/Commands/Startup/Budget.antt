-- ===== src/Commands/Startup/Budget.antt =====
-- cmd/webhook/main.go, `validateGitHubTokenScopeWithPolicy`: how often it validates and how long it
-- waits.
use github_runners_infra.Prelude.{
  ℕ, zero, suc, ◌+◌, ◌%◌, ◌^◌, ◌<◌, ◌≤◌, ltb, Bool, true, false, Option, none, some, [], ◌∷◌, ◌≡◌,
  ◌≢◌, refl, ap, ◌∙◌, if◌then◌else◌, arith, ◌==◌,
}
use github_runners_infra.Webhook.Failure.{Failure}
use github_runners_infra.Program.{run, ◌>>=◌}
use github_runners_infra.Program.Rules.{Ensures, EveryCall, Ensures-run, Ensures-if, Ensures-bind}
use github_runners_infra.GitHub.Errors.{add_duration}
use github_runners_infra.Commands.Startup.{
  Call, time_now, context_err, validate, random, wait, History, Environment, Prog, event,
  RetryPolicy, delay_until, with_jitter, after_wait, wait_within, rate_limited, after_validate,
  unless_ended, attempts, validate_token_scope_with_policy,
}

-- How often the scope was validated.
abbrev counted : Call → ℕ → ℕ
counted validate n = n + 1
counted _ n = n

unfoldable pub validations : History → ℕ
validations [] = 0
validations (e ∷ past) = counted e.asked (validations past)

-- When a call may be made: there is an attempt left, and a wait ends in the budget by the clock, which
-- was read for this.
abbrev pub IsInBudget : RetryPolicy → ℕ → History → Call → Type 0
IsInBudget policy started past validate = validations past < policy.max_attempts
IsInBudget policy started past (wait delay) =
    (now : ℕ) × (logged : ℕ) × (before : History) × (past
      ≡ event time_now logged ∷ event time_now now ∷ before)
    × (add_duration now delay ≤ started + policy.max_elapsed)
IsInBudget policy started past _ = Unit {0}

-- Success is that of the last validation.
abbrev pub IsValidated : History → Option Failure → Type 0
IsValidated past none = (before : History) × (past ≡ event validate none ∷ before)
IsValidated past (some e) = Unit {0}

module _ (policy : RetryPolicy) (started : ℕ) where
  abbrev P : History → Call → Type 0
  P = IsInBudget policy started

  -- The attempts that are left fit, now and after calls that do not validate.
  abbrev Fits : ℕ → History → Type 0
  Fits left past = validations past + left ≤ policy.max_attempts

  wait_within-Ensures :
      (left : ℕ) (e : Failure) (again : Prog (Option Failure)) (delay : ℕ) (past : History)
      → ((h : History) → Fits left h → Ensures P IsValidated h again)
      → Fits left past
      → Ensures P IsValidated past (wait_within policy started e again delay)
  unfolding wait_within after_wait validations
  wait_within-Ensures left e again delay past next fits = (
    tt,
    λ now.
        Ensures-if P IsValidated (event time_now now ∷ past)
          (ltb (started + policy.max_elapsed) (add_duration now delay)) _ _ (λ over. tt)
          (λ within. (
            tt,
            λ logged. (
              (now, logged, past, refl, ground (arith, within)),
              elim [ none ↦ next _ fits | some e' ↦ tt ],
            ),
          )),
  )

  with_jitter-Ensures :
      (left delay : ℕ) (past : History)
      → Fits left past
      → Ensures P (λ h _. Fits left h) past (with_jitter policy delay)
  unfolding with_jitter validations
  with_jitter-Ensures left delay past fits =
      Ensures-if P (λ h _. Fits left h) past (ltb 0 policy.jitter) _ _ (λ jitters. (tt, λ r. fits))
        (λ exact. fits)

  rate_limited-Ensures :
      (attempt left : ℕ) (e : Failure) (again : Prog (Option Failure)) (reset : Option ℕ)
      (past : History)
      → ((h : History) → Fits left h → Ensures P IsValidated h again)
      → Fits left past
      → Ensures P IsValidated past (rate_limited policy started attempt left e again reset)
  unfolding rate_limited validations
  rate_limited-Ensures attempt left e again none past next fits = tt
  rate_limited-Ensures attempt left e again (some reset_at) past next fits =
      Ensures-if P IsValidated past (left == 0) _ _ (λ last. tt)
        (λ more. (
          tt,
          λ now.
              Ensures-bind P (λ h _. Fits left h) IsValidated (event time_now now ∷ past)
                (with_jitter policy (delay_until policy reset_at now))
                (wait_within policy started e again)
                (with_jitter-Ensures left (delay_until policy reset_at now)
                  (event time_now now ∷ past) fits)
                (λ h delay fits'. wait_within-Ensures left e again delay h next fits'),
        ))

  after_validate-Ensures :
      (attempt left : ℕ) (again : Prog (Option Failure)) (answer : Option Failure) (past : History)
      → ((h : History) → Fits left h → Ensures P IsValidated h again)
      → Fits (suc left) past
      → Ensures P IsValidated
          (event validate answer ∷ past)
          (after_validate policy started attempt left again answer)
  unfolding after_validate validations
  after_validate-Ensures attempt left again none past next fits = (past, refl)
  after_validate-Ensures attempt left again (some e) past next fits =
      rate_limited-Ensures attempt left e again e.rate_limit (event validate (some e) ∷ past) next
        (omega (arith, fits))

  attempts-Ensures :
      (left attempt : ℕ) (past : History)
      → Fits left past
      → Ensures P IsValidated past (attempts policy started attempt left)
  unfolding attempts unless_ended validations
  attempts-Ensures zero attempt past fits = tt
  attempts-Ensures (suc left) attempt past fits = (
    tt,
    elim [
      | some e ↦ tt
      | none ↦ (
        omega (arith, fits),
        λ answer.
            after_validate-Ensures attempt left (attempts policy started (attempt + 1) left) answer
              (event context_err none ∷ past) (attempts-Ensures left (attempt + 1)) fits,
      )
    ],
  )

-- In every environment, `validateGitHubTokenScopeWithPolicy` validates at most as often as the policy
-- allows; it waits only where the end of the wait, by the clock and in 64 bits, is within the budget
-- after its start; and it succeeds only if its last call was a validation that succeeded.
pub validate_token_scope-IsInBudget :
    (policy : RetryPolicy) (env : Environment)
    → EveryCall
        (IsInBudget policy (env [] time_now))
        (run env [] (validate_token_scope_with_policy policy)).0
      × IsValidated
          (run env [] (validate_token_scope_with_policy policy)).0
          (run env [] (validate_token_scope_with_policy policy)).1
unfolding validate_token_scope_with_policy run validations
validate_token_scope-IsInBudget policy env =
    let started = env [] time_now in
    Ensures-run (IsInBudget policy started) IsValidated env (event time_now started ∷ [])
      (attempts policy started 1 policy.max_attempts)
      (attempts-Ensures policy started policy.max_attempts 1 (event time_now started ∷ [])
        (omega arith))
      (tt, tt)

if_true : {A B : Type 0} (f : A → B) (b : Bool) (x y : A) → b ≡ true → f (if b then x else y) ≡ f x
if_true f b x y e = rw e refl

if_false :
    {A B : Type 0} (f : A → B) (b : Bool) (x y : A) → b ≡ false → f (if b then x else y) ≡ f y
if_false f b x y e = rw e refl

far_delay :
    (policy : RetryPolicy) (asked now reset_at r : ℕ)
    → asked + 2 ^ 63 ≤ reset_at
    → policy.min_delay < 2 ^ 63
    → 0 < now
    → 0 < r
    → r < 2 ^ 63
    → add_duration now ((delay_until policy reset_at asked + r) % 2 ^ 64) < now
unfolding add_duration delay_until
far_delay policy asked now reset_at r far small real drawn bounded = ground arith

-- The history after one more call.
abbrev pub after : Environment → Call → History → History
after env c past = event c (env past c) ∷ past

-- The history once the jitter has been drawn.
abbrev pub drawn : RetryPolicy → Environment → History → History
drawn policy env past = after env (random policy.jitter) (after env time_now past)

-- What a far reset leads to: a wait that is over before it starts, and then the next attempts.
abbrev pub WaitsForNothing :
    RetryPolicy → ℕ → ℕ → ℕ → Prog (Option Failure) → Failure → Environment → History → Type 0
WaitsForNothing policy started attempt left again e env past =
    let checked = drawn policy env past in
    let logged = after env time_now (after env time_now checked) in
    (delay : ℕ) × (add_duration (env checked time_now) delay < env checked time_now)
    × (run env past (after_validate policy started attempt left again (some e))
        ≡ run env (after env (wait delay) logged) (after_wait again (env logged (wait delay))))

-- After a validation that a rate limit stopped, with attempts left, a positive jitter and a least delay
-- below 2^63 ns, where the reset is 2^63 nanoseconds away or more and the jitter drawn is positive and
-- below 2^63: if the next reading of the clock is positive and in the budget, the start waits for a
-- delay that ends before this reading, and goes on with the next attempts.
pub far_reset-is_over :
    (policy : RetryPolicy) (started attempt left reset_at : ℕ) (again : Prog (Option Failure))
    (e : Failure) (env : Environment) (past : History)
    → e.rate_limit ≡ some reset_at
    → left ≢ 0
    → 0 < policy.jitter
    → policy.min_delay < 2 ^ 63
    → env past time_now + 2 ^ 63 ≤ reset_at
    → 0 < env (after env time_now past) (random policy.jitter)
    → env (after env time_now past) (random policy.jitter) < 2 ^ 63
    → 0 < env (drawn policy env past) time_now
    → env (drawn policy env past) time_now ≤ started + policy.max_elapsed
    → WaitsForNothing policy started attempt left again e env past
unfolding after_validate rate_limited with_jitter wait_within run
far_reset-is_over policy started attempt left reset_at again e env past limited more jitters small
      far positive bounded real within =
    let r = env (after env time_now past) (random policy.jitter) in
    let now = env (drawn policy env past) time_now in
    let delay = (delay_until policy reset_at (env past time_now) + r) % 2 ^ 64 in
    let over =
      far_delay policy (env past time_now) now reset_at r far small real positive bounded in
    let goes_on : (left == 0) ≡ false = ground arith in
    let draws : ltb 0 policy.jitter ≡ true = ground arith in
    let passes : ltb (started + policy.max_elapsed) (add_duration now delay) ≡ false =
      ground arith in
    (
      delay,
      over,
      ap (λ l. run env past (rate_limited policy started attempt left e again l)) limited
          ∙ if_false (run env past) (left == 0) _ _ goes_on
          ∙ if_true
              (λ m. run env (after env time_now past) (m >>= wait_within policy started e again))
              (ltb 0 policy.jitter) _ _ draws
          ∙ if_false (run env (after env time_now (drawn policy env past)))
              (ltb (started + policy.max_elapsed) (add_duration now delay)) _ _ passes,
    )
