-- ===== src/Webhook/Construction.antt =====
-- internal/webhook/handler.go: `NewHandler` and the checks of its configuration.
pub mod Listed
pub mod Ready
use github_runners_infra.Prelude.{
  ℕ, ◌*◌, Bool, true, false, not, ◌&&◌, ◌||◌, ltb, leb, ◌==◌, List, [], ◌∷◌, ◌++◌, Text, is_empty,
  to_lower, split_text, mem, length, if◌then◌else◌,
}
use github_runners_infra.Store.{FileStore, Result, ok, err}
use github_runners_infra.Store.Claim.{set_max_live_runners}
use github_runners_infra.Webhook.{
  Refusal, Checked, accepted, refused, invalid_repository, no_repository, secret_too_short,
  clients_missing, installation_missing, invalid_version, invalid_runner_checksum,
  invalid_chef_checksum, outside_allowlist, store_refused,
}
use github_runners_infra.Webhook.Names.{trim_space, is_safe_name, is_safe_repo_name}
use github_runners_infra.Webhook.Labels.{normalize_allowed_labels}
use github_runners_infra.Webhook.Limits.{minute, LimitConfig, resolve_handler_limits}
use github_runners_infra.Webhook.Handler.{Handler}

-- The struct `Config`. Of the compute client it has what the handler asks of its type.
pub record Config : Type 0 where
  pub webhook_secret : Text
  pub has_clients : Bool
  pub provider : Text
  pub confirms_absence : Bool
  pub cleans_up_except : Bool
  pub required_label : Text
  pub allowed_labels : List Text
  pub allowed_repositories : List Text
  pub allowed_public_repositories : List Text
  pub runner_version : Text
  pub runner_sha256 : Text
  pub chef_installer_sha256 : Text
  pub limits : LimitConfig
  pub installation_id : ℕ

-- sha256.Sum256, and HMAC with a key.
pub record Digests : Type 0 where
  pub sha256 : Text → Text
  pub hmac : Text → Text → Text

infixl 5 ◌>>=◌
abbrev pub ◌>>=◌ : {A B : Type 0} → Checked A → (A → Checked B) → Checked B
accepted a >>= f = f a
refused e >>= f = refused e

-- The value is used only if the test holds.
unfoldable pub require : Bool → Refusal → Checked (Unit {0})
require test e = if test then accepted tt else refused e

unfoldable pub all_digits : Text → Bool
all_digits [] = true
all_digits (c ∷ s) = leb b'0' c && leb c b'9' && all_digits s

unfoldable pub is_number : Text → Bool
unfolding all_digits
is_number s = not (is_empty s) && all_digits s

unfoldable pub are_version_parts : List Text → Bool
unfolding is_number
are_version_parts (major ∷ minor ∷ patch ∷ []) =
    is_number major && is_number minor && is_number patch
are_version_parts _ = false

-- ^[0-9]+\.[0-9]+\.[0-9]+$
unfoldable pub is_version : Text → Bool
unfolding are_version_parts
is_version s = are_version_parts (split_text b'.' s)

unfoldable pub all_hex : Text → Bool
all_hex [] = true
all_hex (c ∷ s) =
    ((leb b'0' c && leb c b'9') || (leb b'a' c && leb c b'f') || (leb b'A' c && leb c b'F'))
    && all_hex s

-- ^[a-fA-F0-9]{64}$
unfoldable pub is_checksum : Text → Bool
unfolding all_hex
is_checksum s = length s == 64 && all_hex s

-- `validateHandlerConfig`
unfoldable pub validate_handler_config : Config → Checked (Unit {0})
unfolding require is_version is_checksum
validate_handler_config cfg = do
  _ ← require (leb 32 (length cfg.webhook_secret)) secret_too_short
  _ ← require cfg.has_clients clients_missing
  _ ← require (ltb 0 cfg.installation_id) installation_missing
  _ ← require (is_version cfg.runner_version) invalid_version
  _ ← require (is_checksum cfg.runner_sha256) invalid_runner_checksum
  require (is_checksum cfg.chef_installer_sha256) invalid_chef_checksum

unfoldable pub are_repository_parts : List Text → Bool
are_repository_parts (owner ∷ name ∷ []) = is_safe_name owner && is_safe_repo_name (to_lower name)
are_repository_parts _ = false

-- `validRepository`
unfoldable pub valid_repository : Text → Bool
unfolding are_repository_parts
valid_repository repo = are_repository_parts (split_text b'/' repo)

-- strings.ToLower(strings.TrimSpace(raw))
unfoldable pub repository_key : Text → Text
repository_key raw = to_lower (trim_space raw)

unfoldable pub insert : Text → List Text → List Text
insert name names = if mem name names then names else names ++ (name ∷ [])

unfoldable pub allow_repositories : List Text → List Text → Checked (List Text)
unfolding valid_repository repository_key insert
allow_repositories [] allowed = accepted allowed
allow_repositories (raw ∷ rest) allowed =
    let later = allow_repositories rest (insert (repository_key raw) allowed) in
    if valid_repository (repository_key raw) then later else refused (invalid_repository raw)

unfoldable pub some_repository : List Text → Checked (List Text)
some_repository [] = refused no_repository
some_repository (name ∷ names) = accepted (name ∷ names)

-- `normalizeAllowedRepositories`
unfoldable pub normalize_allowed_repositories : List Text → Checked (List Text)
unfolding allow_repositories some_repository
normalize_allowed_repositories raw = allow_repositories raw [] >>= some_repository

-- The loop over the public repositories.
unfoldable pub allow_public : List Text → List Text → List Text → Checked (List Text)
unfolding repository_key insert
allow_public allowed [] public = accepted public
allow_public allowed (raw ∷ rest) public =
    let later = allow_public allowed rest (insert (repository_key raw) public) in
    if mem (repository_key raw) allowed then later else refused (outside_allowlist raw)

-- The handler, before the store takes its limit.
unfoldable pub prepare : Digests → Config → Checked Handler
unfolding validate_handler_config normalize_allowed_repositories allow_public
prepare digests cfg = do
  _ ← validate_handler_config cfg
  policy ← normalize_allowed_labels cfg.required_label cfg.allowed_labels
  allowed ← normalize_allowed_repositories cfg.allowed_repositories
  public ← allow_public allowed cfg.allowed_public_repositories []
  limits ← resolve_handler_limits cfg.limits
  accepted (record {
    provider = cfg.provider;
    label_policy = policy;
    allowed_repositories = allowed;
    allowed_public_repositories = public;
    runner_version = cfg.runner_version;
    runner_sha256 = to_lower cfg.runner_sha256;
    chef_installer_sha256 = to_lower cfg.chef_installer_sha256;
    limits = limits;
    liveness_check_interval = 5 * minute;
    installation_id = cfg.installation_id;
    confirms_absence = cfg.confirms_absence;
    cleans_up_except = cfg.cleans_up_except;
    sha256 = digests.sha256;
    hmac_sha256 = digests.hmac cfg.webhook_secret;
  })

unfoldable pub installed : Handler → Result (Unit {0}) × FileStore → Checked Handler × FileStore
installed h (ok _, s) = (accepted h, s)
installed h (err e, s) = (refused (store_refused e), s)

unfoldable pub install : Checked Handler → FileStore → Checked Handler × FileStore
unfolding installed
install (refused e) s = (refused e, s)
install (accepted h) s = installed h (set_max_live_runners h.limits.max_live_runners s)

-- `NewHandler`
unfoldable pub new_handler : Digests → Config → FileStore → Checked Handler × FileStore
unfolding prepare install
new_handler digests cfg s = install (prepare digests cfg) s
