-- ===== src/GitHub/Token.antt =====
-- internal/github/app.go: the tokens of an `App`. The fields that the lock protects are the record
-- `Cache`, which an operation takes and hands back.
pub mod Granted
pub mod Used
use github_runners_infra.Prelude.{
  ℕ, ◌+◌, ◌-◌, ◌*◌, Bool, ◌||◌, ◌&&◌, not, Option, none, some, List, [], ◌∷◌, ◌++◌, Text, codes,
  itoa, text_eq, is_empty, to_lower, ltb, ◌==◌, if◌then◌else◌, join_texts,
}
use github_runners_infra.Dict.{Dict, get}
use github_runners_infra.Webhook.Limits.{second, minute}
use github_runners_infra.Webhook.Failure.{Failure, Outcome, good, bad, wrap, new_error}
use github_runners_infra.Store.Claim.{sort_keys}
use github_runners_infra.Program.{done, ◌>>=◌}
use github_runners_infra.GitHub.Http.{
  Reply, Request, token_scope, TokenBody, ParsedKey, rsa, other_key, Claims, Library, Prog, call,
  time_now, send, authorized,
}
use github_runners_infra.GitHub.Endpoints.{token_url}
use github_runners_infra.GitHub.Errors.{api_status_error}
use github_runners_infra.GitHub.Scope.{App, Scope, token_scope_of}

pub record Cache : Type 0 where
  pub cached_token : Text
  pub token_expires : ℕ
  pub cached_scope : Text

rsa_key : ParsedKey → Outcome Text
rsa_key (rsa key) = good key
rsa_key other_key = bad (new_error (codes "GitHub App private key is not RSA"))

parse_pkcs8 : Library → Text → Failure → Outcome Text
unfolding rsa_key
parse_pkcs8 lib der e = elim (lib.parse_pkcs8_private_key der) [
  | good key ↦ rsa_key key
  | bad e' ↦
      bad
        (wrap (codes "parse RSA private key as PKCS#1 (" ++ (e.message ++ codes ") or PKCS#8")) e')
]

unfoldable pub parse_key : Library → Text → Outcome Text
unfolding parse_pkcs8
parse_key lib private_key = elim (lib.pem_decode private_key) [
  | none ↦ bad (new_error (codes "failed to decode PEM block"))
  | some der ↦ elim (lib.parse_pkcs1_private_key der) [
    | good key ↦ good key
    | bad e ↦ parse_pkcs8 lib der e
  ]
]

unfoldable pub jwt_claims : App → ℕ → Claims
jwt_claims app now = record {
  issued_at = now - 60 * second;
  expires_at = now + 9 * minute;
  issuer = itoa app.app_id;
}

unfoldable pub sign_with : Library → App → Outcome Text → Prog (Outcome Text)
unfolding jwt_claims
sign_with lib app (good key) =
    call time_now >>= λ now. done (lib.signed_string (jwt_claims app now) key)
sign_with lib app (bad e) = done (bad e)

-- `GenerateJWT`
unfoldable pub generate_jwt : Library → App → Prog (Outcome Text)
unfolding parse_key sign_with
generate_jwt lib app = sign_with lib app (parse_key lib app.private_key)

unfoldable pub permissions : App → Dict Text
permissions app =
    (codes "administration", codes "write")
    ∷ (if app.read_workflow_runs then (codes "actions", codes "read") ∷ [] else [])

unfoldable pub token_request : App → Scope → Text → Request
unfolding permissions
token_request app scope jwt =
    authorized (codes "POST") (token_url app.installation_id) jwt
      (token_scope scope.names (permissions app))

-- A map read at a key, where a missing key reads as the empty string.
unfoldable pub entry : Text → Dict Text → Text
entry k d = elim (get k d) [ some v ↦ v | none ↦ [] ]

unfoldable pub lowered : List Text → List Text
lowered [] = []
lowered (name ∷ rest) = to_lower name ∷ lowered rest

-- The checks of the token that GitHub returned.
unfoldable pub check_token : App → Scope → TokenBody → Option Text
unfolding entry lowered
check_token app scope result =
    if is_empty result.token || result.expires_at == 0
    then some (codes "GitHub returned an incomplete installation token")
    else if not (text_eq (entry (codes "administration") result.permissions) (codes "write"))
    then some (codes "GitHub installation token lacks administration:write scope")
    else if app.read_workflow_runs
        && not (text_eq (entry (codes "actions") result.permissions) (codes "read"))
    then some (codes "GitHub installation token lacks actions:read scope")
    else if not (
        text_eq (join_texts b',' (sort_keys (lowered result.repositories)))
          (join_texts b',' scope.full_names))
    then some (codes "GitHub installation token repository scope does not match allowlist")
    else none

unfoldable pub keep_checked : Cache → Scope → TokenBody → Option Text → Outcome Text × Cache
keep_checked cache scope result (some message) = (bad (new_error message), cache)
keep_checked cache scope result none = (
  good result.token,
  record {
    cached_token = result.token;
    token_expires = result.expires_at;
    cached_scope = scope.scope;
  },
)

unfoldable pub keep_token : App → Cache → Scope → TokenBody → Outcome Text × Cache
unfolding check_token keep_checked
keep_token app cache scope result = keep_checked cache scope result (check_token app scope result)

unfoldable pub read_token : Library → App → Cache → Scope → Reply → Prog (Outcome Text × Cache)
unfolding keep_token
read_token lib app cache scope reply =
    if reply.status == 201
    then elim (lib.decode_token reply.body) [
      | good result ↦ done (keep_token app cache scope result)
      | bad e ↦ done (bad e, cache)
    ]
    else (api_status_error lib reply (codes "requesting installation token") >>= λ e.
        done (bad e, cache))

unfoldable pub after_send :
    Library → App → Cache → Scope → Outcome Reply → Prog (Outcome Text × Cache)
unfolding read_token
after_send lib app cache scope (good reply) = read_token lib app cache scope reply
after_send lib app cache scope (bad e) =
    done (bad (wrap (codes "request installation token") e), cache)

unfoldable pub with_jwt : Library → App → Cache → Scope → Outcome Text → Prog (Outcome Text × Cache)
unfolding token_request after_send
with_jwt lib app cache scope (good jwt) =
    call (send (token_request app scope jwt)) >>= after_send lib app cache scope
with_jwt lib app cache scope (bad e) = done (bad (wrap (codes "generate JWT") e), cache)

unfoldable pub fetch_token : Library → App → Cache → Scope → Prog (Outcome Text × Cache)
unfolding generate_jwt with_jwt
fetch_token lib app cache scope = generate_jwt lib app >>= with_jwt lib app cache scope

-- The cached token is for this scope and has five minutes left.
unfoldable pub is_fresh : Cache → ℕ → Bool
is_fresh cache now = ltb now (cache.token_expires - 5 * minute)

unfoldable pub token_in : Library → App → Cache → Scope → Prog (Outcome Text × Cache)
unfolding fetch_token is_fresh
token_in lib app cache scope =
    if not (is_empty cache.cached_token) && text_eq cache.cached_scope scope.scope
    then (call time_now >>= λ now.
        if is_fresh cache now
        then done (good cache.cached_token, cache)
        else fetch_token lib app cache scope)
    else fetch_token lib app cache scope

unfoldable pub token_by : Library → App → Cache → Outcome Scope → Prog (Outcome Text × Cache)
unfolding token_in
token_by lib app cache (good scope) = token_in lib app cache scope
token_by lib app cache (bad e) = done (bad e, cache)

-- `InstallationTokenContext`
unfoldable pub installation_token : Library → App → Cache → Prog (Outcome Text × Cache)
unfolding token_scope_of token_by
installation_token lib app cache = token_by lib app cache (token_scope_of app)

-- What each operation does with the token, or with its error.
unfoldable pub use_token :
    {A : Type 0}
    → (Failure → Failure)
    → (Text → Prog (Outcome A))
    → Outcome Text × Cache
    → Prog (Outcome A × Cache)
use_token explain f (good token, cache) = f token >>= λ answer. done (answer, cache)
use_token explain f (bad e, cache) = done (bad (explain e), cache)

unfoldable pub with_token :
    {A : Type 0}
    → Library
    → App
    → Cache
    → (Failure → Failure)
    → (Text → Prog (Outcome A))
    → Prog (Outcome A × Cache)
unfolding installation_token use_token
with_token lib app cache explain f = installation_token lib app cache >>= use_token explain f
