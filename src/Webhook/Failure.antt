-- ===== src/Webhook/Failure.antt =====
-- The errors that the handler's calls return, as far as internal/webhook/handler.go looks into them:
-- the message, and what `errors.Is`, `gh.RateLimitReset` and `gh.PersistentClientError` find in the
-- chain.
use github_runners_infra.Prelude.{
  ℕ, Bool, false, ◌||◌, if◌then◌else◌, Option, none, some, Text, ◌∷◌, ◌++◌, ◌≡◌, ◌⊎◌, inl, inr,
  refl,
}

pub record Failure : Type 0 where
  pub message : Text
  -- context.Canceled or context.DeadlineExceeded
  pub canceled : Bool
  -- The reset time of a `RateLimitError`.
  pub rate_limit : Option ℕ
  -- There is an `APIStatusError`, and the first one is persistent.
  pub has_status : Bool
  pub persistent : Bool
  -- compute.ErrOwnershipMismatch, ErrDuplicateInstances and ErrCreateOutcomeUnknown
  pub ownership_mismatch : Bool
  pub duplicate_instances : Bool
  pub outcome_unknown : Bool

-- What a call answers: a value or an error.
pub data Outcome {ℓ} (A : Type ℓ) : Type ℓ where
  good : A → Outcome A
  bad : Failure → Outcome A

-- fmt.Errorf(prefix + ": %w", err)
unfoldable pub wrap : Text → Failure → Failure
wrap prefix e = record e { message = prefix ++ (b':' ∷ b' ' ∷ e.message) }

-- An error that wraps none.
unfoldable pub new_error : Text → Failure
new_error message = record {
  message = message;
  canceled = false;
  rate_limit = none;
  has_status = false;
  persistent = false;
  ownership_mismatch = false;
  duplicate_instances = false;
  outcome_unknown = false;
}

abbrev first_some : Option ℕ → Option ℕ → Option ℕ
first_some (some t) o = some t
first_some none o = o

-- errors.Join(err, other), whose text has a line for each.
unfoldable pub join : Failure → Failure → Failure
join e other = record {
  message = e.message ++ (10 ∷ other.message);
  canceled = e.canceled || other.canceled;
  rate_limit = first_some e.rate_limit other.rate_limit;
  has_status = e.has_status || other.has_status;
  persistent = if e.has_status then e.persistent else other.persistent;
  ownership_mismatch = e.ownership_mismatch || other.ownership_mismatch;
  duplicate_instances = e.duplicate_instances || other.duplicate_instances;
  outcome_unknown = e.outcome_unknown || other.outcome_unknown;
}

-- errors.Join(err, other), where `other` may be nil.
unfoldable pub join_maybe : Failure → Option Failure → Failure
join_maybe e none = e
join_maybe e (some other) = join e other

-- Only the error of an answer.
unfoldable pub failed {ℓ} : {A : Type ℓ} → Outcome A → Option Failure
failed (good _) = none
failed (bad e) = some e

pub Outcome-cases {ℓ} :
    {A : Type ℓ} (o : Outcome A) → ((a : A) × (o ≡ good a)) ⊎ ((e : Failure) × (o ≡ bad e))
Outcome-cases (good a) = inl (a, refl)
Outcome-cases (bad e) = inr (e, refl)
