-- ===== src/GitHub/Token/Granted.antt =====
-- internal/github/app.go: what the client asks for a token with, and which tokens it uses.
use github_runners_infra.Prelude.{
  ℕ, ◌-◌, ◌*◌, ◌<◌, true, not, ◌&&◌, Option, none, some, ap, [], ◌∷◌, Text, codes, text_eq,
  text_eq_iff, is_empty, ◌==◌, ◌≡◌, ◌≢◌, ◌⊎◌, inl, inr, refl, arith, join_texts,
}
use github_runners_infra.Webhook.Limits.{minute}
use github_runners_infra.Webhook.Failure.{Outcome, good, bad, Outcome-cases}
use github_runners_infra.Store.Claim.{sort_keys}
use github_runners_infra.Program.Rules.{Ensures, Ensures-bind, Ensures-if}
use github_runners_infra.GitHub.Http.{
  Reply, Request, TokenBody, Library, Call, time_now, send, History, event,
}
use github_runners_infra.GitHub.Errors.{api_status_error}
use github_runners_infra.GitHub.Errors.Classes.{api_status_error-Ensures}
use github_runners_infra.GitHub.Token.{
  Cache, sign_with, generate_jwt, token_request, entry, lowered, check_token, keep_checked,
  keep_token, read_token, after_send, with_jwt, fetch_token, is_fresh, token_in, token_by,
  installation_token, parse_key,
}
use github_runners_infra.GitHub.Scope.{App, Scope, token_scope_of}

-- GitHub granted the token for this scope.
pub record IsGranted (app : App) (scope : Scope) (body : TokenBody) : Type 0 where
  pub complete : (body.token ≢ []) × (body.expires_at ≢ 0)
  pub administers : entry (codes "administration") body.permissions ≡ codes "write"
  pub reads :
      app.read_workflow_runs ≡ true → entry (codes "actions") body.permissions ≡ codes "read"
  pub repositories :
      join_texts b',' (sort_keys (lowered body.repositories)) ≡ join_texts b',' scope.full_names

unfoldable pub cache_of : Scope → TokenBody → Cache
cache_of scope body = record {
  cached_token = body.token;
  token_expires = body.expires_at;
  cached_scope = scope.scope;
}

-- The cache is empty, or has a token that was granted for the scope in it.
abbrev pub IsSound : App → Cache → Type 0
IsSound app cache =
    (cache.cached_token ≡ [])
    ⊎ ((scope : Scope) × (body : TokenBody) × (token_scope_of app ≡ good scope)
        × IsGranted app scope body
        × (cache ≡ cache_of scope body))

-- The requests that may be sent: for a token with the scope of the allowlist, and those of `Asks`.
abbrev pub MaySend : App → (History → Request → Type 0) → History → Call → Type 0
MaySend app Asks past time_now = Unit {0}
MaySend app Asks past (send request) =
    ((scope : Scope) × (jwt : Text) × (token_scope_of app ≡ good scope)
      × (request ≡ token_request app scope jwt))
    ⊎ Asks past request

-- The token is granted for the scope of the allowlist; it came just now, or has five minutes left by
-- the clock, which was read just now.
abbrev pub IsUsable : Library → App → History → Text → Type 0
IsUsable lib app past token =
    (scope : Scope) × (body : TokenBody) × (before : History) × (token_scope_of app ≡ good scope)
    × IsGranted app scope body
    × (token ≡ body.token)
    × (((now : ℕ) × (past ≡ event time_now now ∷ before) × (now < body.expires_at - 5 * minute))
        ⊎ ((jwt : Text) × (reply : Reply) × (past
              ≡ event (send (token_request app scope jwt)) (good reply) ∷ before)
            × (reply.status ≡ 201)
            × (lib.decode_token reply.body ≡ good body)))

-- A token is usable, and an error leaves the cache as it was.
abbrev pub IsToken : Library → App → Cache → History → Outcome Text × Cache → Type 0
IsToken lib app cache past (good token, after) = IsUsable lib app past token × IsSound app after
IsToken lib app cache past (bad e, after) = after ≡ cache

check_token-IsGranted :
    (app : App) (scope : Scope) (body : TokenBody)
    → check_token app scope body ≡ none
    → IsGranted app scope body
unfolding check_token
check_token-IsGranted app scope body e = record {
  complete = ground arith;
  administers =
      ground (arith, text_eq_iff (entry (codes "administration") body.permissions) (codes "write"));
  reads = λ reads.
      ground (arith, reads, text_eq_iff (entry (codes "actions") body.permissions) (codes "read"));
  repositories = ground (
    arith,
    text_eq_iff (join_texts b',' (sort_keys (lowered body.repositories)))
        (join_texts b',' scope.full_names),
  );
}

-- The token that a reply brought.
keep_checked-IsToken :
    (lib : Library) (app : App) (cache : Cache) (scope : Scope) (jwt : Text) (h : History)
    (reply : Reply) (body : TokenBody) (checked : Option Text)
    → token_scope_of app ≡ good scope
    → reply.status ≡ 201
    → lib.decode_token reply.body ≡ good body
    → check_token app scope body ≡ checked
    → IsToken lib app cache
        (event (send (token_request app scope jwt)) (good reply) ∷ h)
        (keep_checked cache scope body checked)
unfolding keep_checked cache_of
keep_checked-IsToken lib app cache scope jwt h reply body none known ok decoded e =
    let granted = check_token-IsGranted app scope body e in
    (
      (scope, body, h, known, granted, refl, inr (jwt, reply, refl, ok, decoded)),
      inr (scope, body, known, granted, refl),
    )
keep_checked-IsToken lib app cache scope jwt h reply body (some message) known ok decoded e = refl

module _ (lib : Library) (app : App) (cache : Cache) (Asks : History → Request → Type 0) where
  abbrev P : History → Call → Type 0
  P = MaySend app Asks

  abbrev Q : History → Outcome Text × Cache → Type 0
  Q = IsToken lib app cache

  read_token-Ensures :
      (scope : Scope) (jwt : Text) (h : History) (reply : Reply)
      → token_scope_of app ≡ good scope
      → Ensures P Q
          (event (send (token_request app scope jwt)) (good reply) ∷ h)
          (read_token lib app cache scope reply)
  unfolding read_token
  read_token-Ensures scope jwt h reply known =
      let past = event (send (token_request app scope jwt)) (good reply) ∷ h in
      let action = codes "requesting installation token" in
      Ensures-if P Q past (reply.status == 201) _ _
        (λ created. elim (Outcome-cases (lib.decode_token reply.body)) [
          | inl (body, e) ↦ rw e (
              unfold keep_token in
              keep_checked-IsToken lib app cache scope jwt h reply body (check_token app scope body)
                known (ground arith) e refl)
          | inr (failure, e) ↦ rw e refl
        ])
        (λ other.
          Ensures-bind P (λ _ _. Unit {0}) Q past (api_status_error lib reply action) _
            (api_status_error-Ensures P (λ _. tt) (λ _ _. Unit {0}) past lib reply action
              (λ _ _. tt))
            (λ _ _ _. refl))

  after_send-Ensures :
      (scope : Scope) (jwt : Text) (h : History) (answer : Outcome Reply)
      → token_scope_of app ≡ good scope
      → Ensures P Q
          (event (send (token_request app scope jwt)) answer ∷ h)
          (after_send lib app cache scope answer)
  unfolding after_send
  after_send-Ensures scope jwt h (good reply) known = read_token-Ensures scope jwt h reply known
  after_send-Ensures scope jwt h (bad e) known = refl

  with_jwt-Ensures :
      (scope : Scope) (h : History) (jwt : Outcome Text)
      → token_scope_of app ≡ good scope
      → Ensures P Q h (with_jwt lib app cache scope jwt)
  unfolding with_jwt
  with_jwt-Ensures scope h (good jwt) known =
      (inl (scope, jwt, known, refl), λ answer. after_send-Ensures scope jwt h answer known)
  with_jwt-Ensures scope h (bad e) known = refl

  sign_with-Ensures :
      (h : History) (key : Outcome Text) → Ensures P (λ _ _. Unit {0}) h (sign_with lib app key)
  unfolding sign_with
  sign_with-Ensures h (good key) = (tt, λ _. tt)
  sign_with-Ensures h (bad e) = tt

  fetch_token-Ensures :
      (scope : Scope) (h : History)
      → token_scope_of app ≡ good scope
      → Ensures P Q h (fetch_token lib app cache scope)
  unfolding fetch_token
  fetch_token-Ensures scope h known =
      Ensures-bind P (λ _ _. Unit {0}) Q h (generate_jwt lib app) (with_jwt lib app cache scope)
        (unfold generate_jwt in sign_with-Ensures h (parse_key lib app.private_key))
        (λ h' jwt _. with_jwt-Ensures scope h' jwt known)

  -- A token in the cache that is fresh.
  cached-IsToken :
      (scope : Scope) (now : ℕ) (h : History)
      → IsSound app cache
      → token_scope_of app ≡ good scope
      → (not (is_empty cache.cached_token) && text_eq cache.cached_scope scope.scope) ≡ true
      → is_fresh cache now ≡ true
      → Q (event time_now now ∷ h) (good cache.cached_token, cache)
  unfolding is_fresh cache_of
  cached-IsToken scope now h (inl e) known cached fresh = ground arith
  cached-IsToken scope now h (inr (scope', body, known', granted, e)) known cached fresh = (
    (scope', body, h, known', granted, ap (λ c. c.cached_token) e, inl (now, refl, ground arith)),
    inr (scope', body, known', granted, e),
  )

  token_in-Ensures :
      (scope : Scope) (h : History)
      → IsSound app cache
      → token_scope_of app ≡ good scope
      → Ensures P Q h (token_in lib app cache scope)
  unfolding token_in
  token_in-Ensures scope h sound known =
      Ensures-if P Q h (not (is_empty cache.cached_token) && text_eq cache.cached_scope scope.scope)
        _ _
        (λ cached. (
          tt,
          λ now.
              Ensures-if P Q (event time_now now ∷ h) (is_fresh cache now) _ _
                (λ fresh. cached-IsToken scope now h sound known cached fresh)
                (λ stale. fetch_token-Ensures scope (event time_now now ∷ h) known),
        ))
        (λ other. fetch_token-Ensures scope h known)

  token_by-Ensures :
      (h : History) (scope : Outcome Scope)
      → IsSound app cache
      → token_scope_of app ≡ scope
      → Ensures P Q h (token_by lib app cache scope)
  unfolding token_by
  token_by-Ensures h (good scope) sound known = token_in-Ensures scope h sound known
  token_by-Ensures h (bad e) sound known = refl

  pub installation_token-Ensures :
      (h : History) → IsSound app cache → Ensures P Q h (installation_token lib app cache)
  unfolding installation_token
  installation_token-Ensures h sound = token_by-Ensures h (token_scope_of app) sound refl
