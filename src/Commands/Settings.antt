-- ===== src/Commands/Settings.antt =====
-- cmd/webhook/main.go: the functions that read a setting from the environment.
pub mod Read
use github_runners_infra.Prelude.{
  ℕ, Option, none, some, List, [], ◌∷◌, ◌++◌, Text, codes, is_empty, itoa, parse_int, positive,
  split_text, if◌then◌else◌, ℤ,
}
use github_runners_infra.Webhook.Names.{trim_space}
use github_runners_infra.Webhook.Failure.{Outcome, good, bad, new_error}

-- `os.Getenv`: a variable that is not set is empty.
abbrev pub Getenv : Type 0
Getenv = Text → Text

-- time.ParseDuration and Duration.String
pub record Durations : Type 0 where
  pub parse_duration : Text → Option ℤ
  pub format_duration : ℕ → Text

infixl 5 ◌>>=◌
abbrev pub ◌>>=◌ : {A B : Type 0} → Outcome A → (A → Outcome B) → Outcome B
good a >>= f = f a
bad e >>= f = bad e

-- A value, or the error that the variable is not set.
unfoldable pub required : Text → Text → Outcome Text
required key value =
    if is_empty value
    then bad (new_error (codes "required environment variable " ++ (key ++ codes " is not set")))
    else good value

-- `requiredEnv`
unfoldable pub required_env : Getenv → Text → Outcome Text
unfolding required
required_env env key = required key (trim_space (env key))

-- `requiredRawEnv`
unfoldable pub required_raw_env : Getenv → Text → Outcome Text
unfolding required
required_raw_env env key = required key (env key)

-- `envOrDefault`
unfoldable pub env_or_default : Getenv → Text → Text → Text
env_or_default env key fallback =
    let value = trim_space (env key) in if is_empty value then fallback else value

-- A number that was read, if it is positive.
unfoldable pub checked_positive : Text → Text → Option ℤ → Outcome ℕ
checked_positive key what parsed = elim (positive parsed) [
  | some n ↦ good n
  | none ↦ bad (new_error (key ++ (codes " must be a positive " ++ what)))
]

-- `requiredPositiveInt64`
unfoldable pub required_positive_int64 : Getenv → Text → Outcome ℕ
unfolding required_env checked_positive
required_positive_int64 env key =
    required_env env key >>= λ value. checked_positive key (codes "integer") (parse_int value)

-- `envPositiveInt64`, and `envPositiveInt` on a 64-bit machine
unfoldable pub env_positive_int : Getenv → Text → ℕ → Outcome ℕ
unfolding env_or_default checked_positive
env_positive_int env key fallback =
    checked_positive key (codes "integer") (parse_int (env_or_default env key (itoa fallback)))

-- `envDuration`
unfoldable pub env_duration : Durations → Getenv → Text → ℕ → Outcome ℕ
unfolding env_or_default checked_positive
env_duration lib env key fallback =
    checked_positive key (codes "duration")
      (lib.parse_duration (env_or_default env key (lib.format_duration fallback)))

unfoldable pub non_empty_items : List Text → List Text
non_empty_items [] = []
non_empty_items (item ∷ items) =
    let rest = non_empty_items items in
    if is_empty (trim_space item) then rest else trim_space item ∷ rest

-- `splitCSV`
unfoldable pub split_csv : Text → List Text
unfolding non_empty_items
split_csv value = non_empty_items (split_text b',' value)
