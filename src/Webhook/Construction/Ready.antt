-- ===== src/Webhook/Construction/Ready.antt =====
-- internal/webhook/handler.go, `NewHandler`: what holds of every handler.
use github_runners_infra.Prelude.{
  ◌<◌, ◌≤◌, ◌*◌, Bool, true, false, ltb, leb, ◌==◌, if◌then◌else◌, List, [], ◌∷◌, ◌++◌, Text,
  to_lower, mem, length, ◌≡◌, ◌≢◌, inl, inr, refl, sym, subst, ap, ◌∙◌, arith, Bool-cases,
}
use github_runners_infra.Store.{FileStore, Result, Error, ok, err}
use github_runners_infra.Store.Claim.{set_max_live_runners}
use github_runners_infra.Webhook.{Checked, accepted, refused, Refusal}
use github_runners_infra.Webhook.Labels.{normalize_allowed_labels}
use github_runners_infra.Webhook.Limits.{minute, resolve_handler_limits, with_defaults}
use github_runners_infra.Webhook.Limits.Resolved.{IsInRange, resolve_handler_limits-IsResolved}
use github_runners_infra.Webhook.Handler.{Handler}
use github_runners_infra.Webhook.Construction.Listed.{
  Names, Names-new, IsKeyed, allow_repositories-IsKeyed, allow_public-IsKeyed,
}
use github_runners_infra.Webhook.Construction.{
  Config, Digests, ◌>>=◌, require, is_version, is_checksum, validate_handler_config,
  valid_repository, repository_key, insert, allow_repositories, some_repository,
  normalize_allowed_repositories, allow_public, prepare, installed, install, new_handler,
}

-- What is given of an accepted value.
abbrev Gives : {A : Type 0} → (A → Type 0) → Checked A → Type 0
Gives Q (accepted a) = Q a
Gives Q (refused e) = Unit {0}

bind_accepted :
    {A B : Type 0} (m : Checked A) (f : A → Checked B) (b : B)
    → (m >>= f) ≡ accepted b
    → (a : A) × (m ≡ accepted a) × (f a ≡ accepted b)
bind_accepted (accepted a) f b e = (a, refl, e)
bind_accepted (refused r) f b e = cc

required : (test : Bool) (r : Refusal) (u : Unit {0}) → require test r ≡ accepted u → test ≡ true
unfolding require
required true r u e = refl
required false r u e = cc

-- Each name of the list satisfies P.
abbrev pub All : (Text → Type 0) → List Text → Type 0
All P [] = Unit {0}
All P (name ∷ names) = P name × All P names

All-append :
    (P : Text → Type 0) (name : Text) (names : List Text)
    → P name
    → All P names
    → All P (names ++ (name ∷ []))
All-append P name [] p all = (p, tt)
All-append P name (other ∷ names) p all = (all.0, All-append P name names p all.1)

All-insert :
    (P : Text → Type 0) (name : Text) (names : List Text)
    → P name
    → All P names
    → All P (insert name names)
unfolding insert
All-insert P name names p all = elim (Bool-cases (mem name names)) [
  | inl e ↦ rw e all
  | inr e ↦ rw e (All-append P name names p all)
]

allow_repositories-All :
    (raw allowed names : List Text)
    → All (λ name. valid_repository name ≡ true) allowed
    → allow_repositories raw allowed ≡ accepted names
    → All (λ name. valid_repository name ≡ true) names
unfolding allow_repositories
allow_repositories-All [] allowed names all e =
    subst (All (λ name. valid_repository name ≡ true)) (cc) all
allow_repositories-All (raw ∷ rest) allowed names all e =
    elim (Bool-cases (valid_repository (repository_key raw))) [
      | inl v ↦
          allow_repositories-All rest (insert (repository_key raw) allowed) names
            (All-insert (λ name. valid_repository name ≡ true) (repository_key raw) allowed v all)
            (rw v at e)
      | inr v ↦ let e' = rw v at e in cc
    ]

allow_public-All :
    (allowed raw public names : List Text)
    → All (λ name. mem name allowed ≡ true) public
    → allow_public allowed raw public ≡ accepted names
    → All (λ name. mem name allowed ≡ true) names
unfolding allow_public
allow_public-All allowed [] public names all e =
    subst (All (λ name. mem name allowed ≡ true)) (cc) all
allow_public-All allowed (raw ∷ rest) public names all e =
    elim (Bool-cases (mem (repository_key raw) allowed)) [
      | inl v ↦
          allow_public-All allowed rest (insert (repository_key raw) public) names
            (All-insert (λ name. mem name allowed ≡ true) (repository_key raw) public v all)
            (rw v at e)
      | inr v ↦ let e' = rw v at e in cc
    ]

some_repository-nonempty :
    (found names : List Text)
    → some_repository found ≡ accepted names
    → (names ≡ found) × (names ≢ [])
unfolding some_repository
some_repository-nonempty [] names e = cc
some_repository-nonempty (name ∷ rest) names e = (cc, λ z. cc)

-- What `NewHandler` has checked and set.
pub record IsReady (digests : Digests) (cfg : Config) (h : Handler) : Type 0 where
  pub secret : 32 ≤ length cfg.webhook_secret
  pub clients : cfg.has_clients ≡ true
  pub installation : (0 < h.installation_id) × (h.installation_id ≡ cfg.installation_id)
  pub version : (is_version h.runner_version ≡ true) × (h.runner_version ≡ cfg.runner_version)
  pub runner_checksum :
      (is_checksum cfg.runner_sha256 ≡ true) × (h.runner_sha256 ≡ to_lower cfg.runner_sha256)
  pub chef_checksum :
      (is_checksum cfg.chef_installer_sha256 ≡ true)
      × (h.chef_installer_sha256 ≡ to_lower cfg.chef_installer_sha256)
  pub repositories :
      (h.allowed_repositories ≢ [])
      × All (λ name. valid_repository name ≡ true) h.allowed_repositories
      × Names cfg.allowed_repositories h.allowed_repositories
  pub public_ones :
      All (λ name. mem name h.allowed_repositories ≡ true) h.allowed_public_repositories
      × Names cfg.allowed_public_repositories h.allowed_public_repositories
  pub labels :
      normalize_allowed_labels cfg.required_label cfg.allowed_labels ≡ accepted h.label_policy
  pub compute :
      (h.provider ≡ cfg.provider)
      × (h.confirms_absence ≡ cfg.confirms_absence)
      × (h.cleans_up_except ≡ cfg.cleans_up_except)
  pub digests_used : (h.sha256 ≡ digests.sha256) × (h.hmac_sha256 ≡ digests.hmac cfg.webhook_secret)
  pub interval : h.liveness_check_interval ≡ 5 * minute
  pub limits : (h.limits ≡ with_defaults cfg.limits) × IsInRange h.limits

accepted-injective : (a b : Handler) → accepted a ≡ accepted b → a ≡ b
accepted-injective a b e = cc

prepare-IsReady :
    (digests : Digests) (cfg : Config) (h : Handler)
    → prepare digests cfg ≡ accepted h
    → IsReady digests cfg h
unfolding prepare validate_handler_config normalize_allowed_repositories
prepare-IsReady digests cfg h e =
    let (u, checked, e1) = bind_accepted (validate_handler_config cfg) _ h e in
    let (u1, secret, c1) =
      bind_accepted (require (leb 32 (length cfg.webhook_secret)) _) _ u checked in
    let (u2, clients, c2) = bind_accepted (require cfg.has_clients _) _ u c1 in
    let (u3, installation, c3) = bind_accepted (require (ltb 0 cfg.installation_id) _) _ u c2 in
    let (u4, version, c4) = bind_accepted (require (is_version cfg.runner_version) _) _ u c3 in
    let (u5, runner, chef) = bind_accepted (require (is_checksum cfg.runner_sha256) _) _ u c4 in
    let (policy, labels, e2) =
      bind_accepted (normalize_allowed_labels cfg.required_label cfg.allowed_labels) _ h e1 in
    let (allowed, repositories, e3) =
      bind_accepted (normalize_allowed_repositories cfg.allowed_repositories) _ h e2 in
    let (found, listed, nonempty) =
      bind_accepted (allow_repositories cfg.allowed_repositories []) some_repository allowed
        repositories in
    let (public, chosen, e4) =
      bind_accepted (allow_public allowed cfg.allowed_public_repositories []) _ h e3 in
    let (limits, resolved, e5) = bind_accepted (resolve_handler_limits cfg.limits) _ h e4 in
    let (same, filled) = some_repository-nonempty found allowed nonempty in
    subst (IsReady digests cfg) (accepted-injective _ h e5) (record {
      secret = let t = required _ _ u1 secret in ground arith;
      clients = required _ _ u2 clients;
      installation = (let t = required _ _ u3 installation in ground arith, refl);
      version = (required _ _ u4 version, refl);
      runner_checksum = (required _ _ u5 runner, refl);
      chef_checksum = (required _ _ u chef, refl);
      repositories = (
        filled,
        subst (All (λ name. valid_repository name ≡ true)) (sym same)
            (allow_repositories-All cfg.allowed_repositories [] found tt listed),
        Names-new cfg.allowed_repositories allowed (
            subst (IsKeyed cfg.allowed_repositories []) (sym same)
              (allow_repositories-IsKeyed cfg.allowed_repositories [] found listed)),
      );
      public_ones = (
        allow_public-All allowed cfg.allowed_public_repositories [] public tt chosen,
        Names-new cfg.allowed_public_repositories public
            (allow_public-IsKeyed allowed cfg.allowed_public_repositories [] public chosen),
      );
      compute = (refl, refl, refl);
      digests_used = (refl, refl);
      interval = refl;
      labels = labels;
      limits =
          let r = resolve_handler_limits-IsResolved cfg.limits limits in
          ((r.0.0 resolved).0, (r.1 resolved).1);
    })

installed-accepts :
    (g h : Handler) (o : Result (Unit {0}) × FileStore) (after : FileStore)
    → installed g o ≡ (accepted h, after)
    → (g ≡ h) × (o ≡ (ok tt, after))
unfolding installed
installed-accepts g h (ok u, s) after e = (cc, cc)
installed-accepts g h (err r, s) after e = cc

passed :
    (b : Bool) (r : Error) (s t after : FileStore)
    → ◌≡◌ {A = Result (Unit {0}) × FileStore} (if b then (err r, s) else (ok tt, t)) (ok tt, after)
    → after ≡ t
passed true r s t after e = cc
passed false r s t after e = cc

install-accepts :
    (m : Checked Handler) (s after : FileStore) (h : Handler)
    → install m s ≡ (accepted h, after)
    → (m ≡ accepted h) × (after ≡ record s { max_live_runners = h.limits.max_live_runners })
unfolding install set_max_live_runners
install-accepts (refused r) s after h e = cc
install-accepts (accepted g) s after h e =
    let (same, stored) = installed-accepts g h _ after e in
    (
      ap accepted same,
      passed (g.limits.max_live_runners == 0) _ s _ after stored
          ∙ ap (λ (x : Handler). record s { max_live_runners = x.limits.max_live_runners }) same,
    )

-- `NewHandler` gives a handler only for a secret of at least 32 bytes, clients, a positive installation,
-- a version and checksums of the right form, labels that `normalizeAllowedLabels` accepts, at least one
-- repository, each of a valid name, public ones among these, and limits in range. The handler has the
-- installation, the version, the checksums in lower case, these labels and limits, the provider and
-- what its client can do; its repositories and its public ones are the configured ones, trimmed and
-- in lower case; its HMAC has the secret as its key. The store gets the limit of live runners and no
-- other change.
pub new_handler-IsReady :
    (digests : Digests) (cfg : Config) (s after : FileStore) (h : Handler)
    → new_handler digests cfg s ≡ (accepted h, after)
    → IsReady digests cfg h × (after ≡ record s { max_live_runners = h.limits.max_live_runners })
unfolding new_handler
new_handler-IsReady digests cfg s after h e =
    let (made, stored) = install-accepts (prepare digests cfg) s after h e in
    (prepare-IsReady digests cfg h made, stored)
