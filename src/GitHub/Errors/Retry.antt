-- ===== src/GitHub/Errors/Retry.antt =====
-- internal/github/runner.go, `retryAtFromHeaders`: a number of seconds in `Retry-After`.
use github_runners_infra.Prelude.{
  ℕ, ◌+◌, ◌*◌, ◌<◌, ◌≤◌, false, ltb, some, [], ◌∷◌, Text, is_empty, itoa, parse_int, parse_int-itoa,
  pos, ◌≡◌, refl, arith, Bool-cases, ◌⊎◌, inl, inr,
}
use github_runners_infra.Webhook.Limits.{second}
use github_runners_infra.GitHub.Http.{Headers, Library}
use github_runners_infra.GitHub.Errors.{add_seconds, retry_at_from_headers}

add_seconds-small : (now n : ℕ) → n < 9223372037 → add_seconds now n ≡ now + n * second
unfolding add_seconds
add_seconds-small now n small = ground arith

add_seconds-wrapped :
    (now n : ℕ) → 9223372037 ≤ n → n < 18446744074 → 0 < now → add_seconds now n < now
unfolding add_seconds
add_seconds-wrapped now n large below real = ground arith

parse_int-empty : (s : Text) (n : ℕ) → parse_int s ≡ some (pos n) → is_empty s ≡ false
unfolding parse_int
parse_int-empty [] n e = cc
parse_int-empty (c ∷ s) n e = refl

retry_at-number :
    (lib : Library) (now n : ℕ) (headers : Headers)
    → parse_int headers.retry_after ≡ some (pos n)
    → retry_at_from_headers lib now headers ≡ add_seconds now n
unfolding retry_at_from_headers
retry_at-number lib now n headers e = rw (parse_int-empty headers.retry_after n e, e) refl

-- Where now is positive, a `Retry-After` of n seconds in decimal gives the time that is n seconds away
-- where n is at most 9223372036, and a time before now where n is more, but less than 18446744074.
pub retry_at-wraps :
    (lib : Library) (now n : ℕ) (headers : Headers)
    → 0 < now
    → n < 18446744074
    → headers.retry_after ≡ itoa n
    → ((n < 9223372037) × (retry_at_from_headers lib now headers ≡ now + n * second))
      ⊎ ((9223372037 ≤ n) × (retry_at_from_headers lib now headers < now))
retry_at-wraps lib now n headers real below e =
    let number = retry_at-number lib now n headers (rw e (parse_int-itoa n (omega arith))) in
    elim (Bool-cases (ltb n 9223372037)) [
      | inl small ↦ inl (ground arith, rw number (add_seconds-small now n (ground arith)))
      | inr large ↦
          inr (ground arith, rw number (add_seconds-wrapped now n (ground arith) below real))
    ]
