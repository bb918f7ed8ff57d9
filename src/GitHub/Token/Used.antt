-- ===== src/GitHub/Token/Used.antt =====
-- internal/github/app.go and runner.go: the token in the requests of the other operations.
use github_runners_infra.Prelude.{[], Text, ◌∷◌, ◌≡◌, refl, sym, subst, inr}
use github_runners_infra.Webhook.Failure.{Failure, Outcome, good, bad}
use github_runners_infra.Program.{◌>>=◌, run}
use github_runners_infra.Program.Rules.{Ensures, EveryCall, Ensures-bind, Ensures-run}
use github_runners_infra.GitHub.Http.{
  Reply, Request, Library, Call, send, History, Environment, Prog, call, event,
}
use github_runners_infra.GitHub.Errors.{api_status_error}
use github_runners_infra.GitHub.Errors.Classes.{api_status_error-Ensures}
use github_runners_infra.GitHub.Runners.{refuse}
use github_runners_infra.GitHub.Token.{Cache, installation_token, use_token, with_token}
use github_runners_infra.GitHub.Scope.{App}
use github_runners_infra.GitHub.Token.Granted.{
  IsSound, IsUsable, IsToken, MaySend, installation_token-Ensures,
}

-- In every environment, from a cache that is sound, `InstallationTokenContext` asks GitHub only for a
-- token with the scope of the allowlist, and answers only a token that GitHub granted for exactly
-- that scope, which came just now or has five minutes left by the clock; the cache is then sound, and
-- an error leaves it as it was.
pub installation_token-IsToken :
    (lib : Library) (app : App) (cache : Cache) (env : Environment)
    → IsSound app cache
    → EveryCall (MaySend app (λ _ _. ⊥)) (run env [] (installation_token lib app cache)).0
      × IsToken lib app cache
          (run env [] (installation_token lib app cache)).0
          (run env [] (installation_token lib app cache)).1
installation_token-IsToken lib app cache env sound =
    Ensures-run (MaySend app (λ _ _. ⊥)) (IsToken lib app cache) env []
      (installation_token lib app cache)
      (installation_token-Ensures lib app cache (λ _ _. ⊥) [] sound) tt

-- The request is the one that `build` makes with a usable token.
abbrev pub UsesToken : Library → App → (Text → Request) → History → Request → Type 0
UsesToken lib app build past request =
    (token : Text) × (request ≡ build token) × IsUsable lib app past token

-- Only requests for tokens and those of `build` with a usable token.
abbrev pub Allowed : Library → App → (Text → Request) → History → Call → Type 0
Allowed lib app build = MaySend app (UsesToken lib app build)

-- The last call of the history is a request of `build` whose reply fits.
abbrev pub Replied : (Text → Request) → (Reply → Type 0) → History → Type 0
Replied build Fits past =
    (token : Text) × (reply : Reply) × (before : History) × (past
      ≡ event (send (build token)) (good reply) ∷ before)
    × Fits reply

module _ {A : Type 0} (lib : Library) (app : App) (build : Text → Request)
    (Fits : A → Reply → Type 0) where
  -- An answer fits the reply to the last request.
  abbrev pub Answered : History → Outcome A → Type 0
  Answered past (good a) = Replied build (Fits a) past
  Answered past (bad e) = Unit {0}

  abbrev pub Ends : History → Outcome A × Cache → Type 0
  Ends past (answer, after) = Answered past answer × IsSound app after

  abbrev P : History → Call → Type 0
  P = Allowed lib app build

  pub refuse-Ensures :
      (past : History) (reply : Reply) (action : Text)
      → Ensures P Answered past (refuse lib reply action)
  unfolding refuse
  refuse-Ensures past reply action =
      Ensures-bind P (λ _ _. Unit {0}) Answered past (api_status_error lib reply action) _
        (api_status_error-Ensures P (λ _. tt) (λ _ _. Unit {0}) past lib reply action (λ _ _. tt))
        (λ _ _ _. tt)

  use_token-Ensures :
      (cache : Cache) (explain : Failure → Failure) (f : Text → Prog (Outcome A)) (past : History)
      (answer : Outcome Text × Cache)
      → IsSound app cache
      → ((past : History) (token : Text)
          → IsUsable lib app past token
          → Ensures P Answered past (f token))
      → IsToken lib app cache past answer
      → Ensures P Ends past (use_token explain f answer)
  unfolding use_token
  use_token-Ensures cache explain f past (good token, after) sound go (usable, kept) =
      Ensures-bind P Answered Ends past (f token) _ (go past token usable)
        (λ _ _ fits. (fits, kept))
  use_token-Ensures cache explain f past (bad e, after) sound go same =
      (tt, subst (IsSound app) (sym same) sound)

  pub with_token-Ensures :
      (cache : Cache) (explain : Failure → Failure) (f : Text → Prog (Outcome A)) (past : History)
      → IsSound app cache
      → ((past : History) (token : Text)
          → IsUsable lib app past token
          → Ensures P Answered past (f token))
      → Ensures P Ends past (with_token lib app cache explain f)
  unfolding with_token
  with_token-Ensures cache explain f past sound go =
      Ensures-bind P (IsToken lib app cache) Ends past (installation_token lib app cache)
        (use_token explain f)
        (installation_token-Ensures lib app cache (UsesToken lib app build) past sound)
        (λ later answer is. use_token-Ensures cache explain f later answer sound go is)

  -- An operation that sends one request with the token.
  pub request-Ensures :
      (cache : Cache) (explain : Failure → Failure) (k : Outcome Reply → Prog (Outcome A))
      (past : History)
      → IsSound app cache
      → ((before : History) (token : Text) (answer : Outcome Reply)
          → Ensures P Answered (event (send (build token)) answer ∷ before) (k answer))
      → Ensures P Ends past
          (with_token lib app cache explain (λ token. call (send (build token)) >>= k))
  request-Ensures cache explain k past sound go =
      with_token-Ensures cache explain (λ token. call (send (build token)) >>= k) past sound
        (λ before token usable. (inr (token, refl, usable), λ answer. go before token answer))
