-- ===== src/GitHub/Errors/Classes.antt =====
-- internal/github/runner.go, `apiStatusError`: the classes of errors, and when to try again.
use github_runners_infra.Prelude.{
  ℕ, ◌<◌, ◌≤◌, true, false, none, some, [], ◌∷◌, Text, codes, text_eq_iff, is_empty, ◌==◌, ◌≡◌, ◌≢◌,
  ◌↔◌, ◌⊎◌, inl, inr, refl, arith, Bool-cases,
}
use github_runners_infra.Webhook.Failure.{Failure, new_error}
use github_runners_infra.Program.{done, ◌>>=◌, run}
use github_runners_infra.Program.Rules.{Ensures, Ensures-if}
use github_runners_infra.GitHub.Http.{
  Reply, Library, Call, time_now, History, Environment, call, event,
}
use github_runners_infra.GitHub.Errors.{
  retry_at_from_headers, is_throttled, is_persistent, rate_limit_error, status_error,
  api_status_error,
}

module _ (P : History → Call → Type 0) (clock : (h : History) → P h time_now) where
  -- An API error reads at most the clock.
  pub api_status_error-Ensures :
      (Q : History → Failure → Type 0) (h : History) (lib : Library) (reply : Reply) (action : Text)
      → ((h' : History) (e : Failure) → Q h' e)
      → Ensures P Q h (api_status_error lib reply action)
  unfolding api_status_error
  api_status_error-Ensures Q h lib reply action q =
      Ensures-if P Q h (is_throttled reply)
        (call time_now >>= λ now. done (rate_limit_error lib now reply))
        (done (status_error reply.status action))
        (λ e. (clock h, λ now. q (event time_now now ∷ h) (rate_limit_error lib now reply)))
        (λ e. q h (status_error reply.status action))

-- GitHub asks the client to wait.
abbrev pub IsThrottled : Reply → Type 0
IsThrottled reply =
    (reply.status ≡ 429)
    ⊎ ((reply.status ≡ 403)
        × ((reply.headers.retry_after ≢ []) ⊎ (reply.headers.rate_limit_remaining ≡ codes "0")))

-- Trying again does not help.
abbrev pub IsRefused : ℕ → Type 0
IsRefused status =
    (400 ≤ status)
    × (status < 500)
    × (status ≢ 408)
    × (status ≢ 409)
    × (status ≢ 422)
    × (status ≢ 429)

-- The error has a time to wait until exactly if the client is throttled, which is read off the
-- headers at the time of the only call, and it is persistent exactly if the request is refused
-- otherwise.
pub record IsClassified (lib : Library) (reply : Reply) (past : History) (e : Failure)
    : Type 0 where
  pub limited :
      IsThrottled reply
      → (now : ℕ) × (past ≡ event time_now now ∷ [])
        × (e.rate_limit ≡ some (retry_at_from_headers lib now reply.headers))
        × (e.persistent ≡ false)
  pub unlimited :
      ¬ IsThrottled reply
      → (past ≡ []) × (e.rate_limit ≡ none) × ((e.persistent ≡ true) ↔ IsRefused reply.status)

is_empty-nil : (s : Text) → is_empty s ≡ true → s ≡ []
is_empty-nil [] e = refl
is_empty-nil (c ∷ s) e = cc

is_throttled-IsThrottled : (reply : Reply) → (is_throttled reply ≡ true) ↔ IsThrottled reply
unfolding is_throttled
is_throttled-IsThrottled reply = (throttled, from_throttled)
  where
    throttled : is_throttled reply ≡ true → IsThrottled reply
    throttled e = elim (Bool-cases (reply.status == 429)) [
      | inl p ↦ inl (ground arith)
      | inr p ↦ elim (Bool-cases (is_empty reply.headers.retry_after)) [
        | inl q ↦ inr (
          ground (arith, p, q, e),
          inr (ground (arith, p, q, e, text_eq_iff reply.headers.rate_limit_remaining (codes "0"))),
        )
        | inr q ↦ inr (ground (arith, p, q, e), inl (λ z. ground (arith, q, z)))
      ]
    ]

    from_throttled : IsThrottled reply → is_throttled reply ≡ true
    from_throttled (inl e) = ground (arith, e)
    from_throttled (inr (e, inl named)) = elim (Bool-cases (is_empty reply.headers.retry_after)) [
      | inl q ↦ absurd (named (is_empty-nil reply.headers.retry_after q))
      | inr q ↦ ground (arith, e, q)
    ]
    from_throttled (inr (e, inr spent)) =
        ground (arith, e, (text_eq_iff reply.headers.rate_limit_remaining (codes "0")).1 spent)

is_persistent-IsRefused : (status : ℕ) → (is_persistent status ≡ true) ↔ IsRefused status
unfolding is_persistent
is_persistent-IsRefused status = ((λ e. ground arith), λ r. ground arith)

-- In every environment, `apiStatusError` gives an error of the class of the reply: a throttled one
-- (429, or 403 with `Retry-After` or with no requests left) has the retry time of its headers at the
-- time of the only call, and is not persistent; any other makes no call, has no retry time, and is
-- persistent exactly if the status is a client error but 408, 409, 422 and 429.
pub api_status_error-IsClassified :
    (lib : Library) (reply : Reply) (action : Text) (env : Environment)
    → IsClassified lib reply
        (run env [] (api_status_error lib reply action)).0
        (run env [] (api_status_error lib reply action)).1
unfolding api_status_error rate_limit_error status_error run new_error
api_status_error-IsClassified lib reply action env = elim (Bool-cases (is_throttled reply)) [
  | inl e ↦ rw e (record {
    limited = λ t. (env [] time_now, refl, refl, refl);
    unlimited = λ free. absurd (free ((is_throttled-IsThrottled reply).0 e));
  })
  | inr e ↦ rw e (record {
    limited = λ t. let e' = (is_throttled-IsThrottled reply).1 t in cc;
    unlimited = λ free. (refl, refl, is_persistent-IsRefused reply.status);
  })
]
