-- ===== src/Webhook/Request.antt =====
-- internal/webhook/handler.go: a webhook request, the event in it, and the checks of `ServeHTTP` that
-- need no call; internal/github/runner.go: `VerifyWebhookSignature`.
use github_runners_infra.Prelude.{
  ℕ, Bool, true, false, ◌&&◌, ◌||◌, not, Option, List, [], ◌∷◌, ◌++◌, Text, text_eq, to_lower,
  equal_fold, mem, codes, length, leb, ◌==◌, if◌then◌else◌,
}
use github_runners_infra.Record.{Record, unset, no_work}
use github_runners_infra.Webhook.{Checked, accepted, refused, invalid_name, identity_disagrees}
use github_runners_infra.Webhook.Names.{is_safe_name, is_safe_repo_name}
use github_runners_infra.Webhook.RunnerName.{take, drop, hex_encode}
use github_runners_infra.Webhook.Handler.{Handler}

-- `RepoInfo`
pub record RepoInfo : Type 0 where
  pub full_name : Text
  pub name : Text
  pub private_repo : Bool
  pub owner_login : Text

-- `WorkflowJobEvent`, with the fields of `WorkflowJob` that are read.
pub record WorkflowJobEvent : Type 0 where
  pub action : Text
  pub run_id : ℕ
  pub job_id : ℕ
  pub labels : List Text
  pub runner_id : ℕ
  pub runner_name : Text
  pub repo : RepoInfo
  pub installation_id : ℕ

-- A request: its method, its headers and, unless reading it fails or meets the limit, its body.
pub record Request : Type 0 where
  pub method : Text
  pub body : Option Text
  pub signature : Text
  pub event_type : Text
  pub delivery_id : Text

pub record Response : Type 0 where
  pub status : ℕ
  pub message : Text

-- `VerifyWebhookSignature`
unfoldable pub verify_webhook_signature : Handler → Text → Text → Bool
verify_webhook_signature h payload signature =
    text_eq (take 7 signature) (codes "sha256=")
    && text_eq (drop 7 signature) (hex_encode (h.hmac_sha256 payload))

is_delivery_byte : ℕ → Bool
is_delivery_byte c =
    (leb b'a' c && leb c b'z')
    || (leb b'A' c && leb c b'Z')
    || (leb b'0' c && leb c b'9')
    || c == b'_'
    || c == b'-'

all_delivery_bytes : Text → Bool
unfolding is_delivery_byte
all_delivery_bytes [] = true
all_delivery_bytes (c ∷ s) = is_delivery_byte c && all_delivery_bytes s

-- ^[a-zA-Z0-9_-]{1,128}$
unfoldable pub is_delivery_id : Text → Bool
unfolding all_delivery_bytes
is_delivery_id s = leb 1 (length s) && leb (length s) 128 && all_delivery_bytes s

-- strings.ToLower(owner + "/" + name)
unfoldable pub full_name_of : RepoInfo → Text
full_name_of repo = to_lower (repo.owner_login ++ (b'/' ∷ repo.name))

-- `validateRepository`: the name of the repository and whether it is served, or an error.
unfoldable pub validate_repository : Handler → RepoInfo → Checked (Text × Bool)
validate_repository h repo =
    if not (is_safe_name repo.owner_login) || not (is_safe_repo_name (to_lower repo.name))
    then refused invalid_name
    else if not (equal_fold repo.full_name (full_name_of repo))
    then refused identity_disagrees
    else if not repo.private_repo && not (mem (full_name_of repo) h.allowed_public_repositories)
    then accepted (full_name_of repo, false)
    else if not (mem (full_name_of repo) h.allowed_repositories)
    then accepted (full_name_of repo, false)
    else accepted (full_name_of repo, true)

-- state.Record{}
abbrev pub zero_record : Record
zero_record = record {
  key = [];
  delivery_id = [];
  job_id = 0;
  owner = [];
  repository = [];
  labels = [];
  provider = [];
  runner_name = [];
  github_runner_id = 0;
  github_runner_owned = false;
  instance_id = [];
  job_completed = false;
  recheck_demand = false;
  deletion_accepted_id = [];
  droplet_id = 0;
  status = unset;
  claimed_work = no_work;
  defer_deletion = false;
  attempts = 0;
  provision_epoch = 0;
  delete_attempts = 0;
  reconcile_failures = 0;
  throttle_failures = 0;
  last_error = [];
  next_attempt_at = 0;
  missing_since = 0;
  missing_checks = 0;
  github_missing_since = 0;
  github_missing_checks = 0;
  created_at = 0;
  provisioned_at = 0;
  registered_at = 0;
  reconciled_at = 0;
  updated_at = 0;
}
