-- ===== src/Commands/Settings/Read.antt =====
-- cmd/webhook/main.go: which values are read from which environments.
use github_runners_infra.Prelude.{
  ℕ, zero, suc, ◌^◌, ◌<◌, true, false, Option, none, some, [], ◌∷◌, Text, is_empty, itoa, parse_int,
  parse_int-itoa, ℤ, pos, negsuc, ◌≡◌, ◌≢◌, ◌⊎◌, inl, inr, refl, sym, ◌∙◌, ap, arith,
}
use github_runners_infra.Webhook.Names.{trim_space}
use github_runners_infra.Webhook.Failure.{Outcome, good, bad}
use github_runners_infra.Commands.Settings.{
  Getenv, Durations, ◌>>=◌, required, required_env, env_or_default, checked_positive,
  required_positive_int64, env_positive_int, env_duration,
}

-- A variable that is set, read without the space around it.
abbrev pub IsText : Getenv → Text → Text → Type 0
IsText env key value = (value ≡ trim_space (env key)) × (value ≢ [])

-- A positive number, which is that of the variable, or the default where that is blank.
abbrev pub IsSetting : (Text → Option ℤ) → Getenv → Text → ℕ → ℕ → Type 0
IsSetting parse env key fallback n =
    (0 < n)
    × (((trim_space (env key) ≡ []) × (n ≡ fallback))
        ⊎ ((trim_space (env key) ≢ []) × (parse (trim_space (env key)) ≡ some (pos n))))

abbrev pub IsNumber : Getenv → Text → ℕ → Type 0
IsNumber env key n =
    (0 < n) × (trim_space (env key) ≢ []) × (parse_int (trim_space (env key)) ≡ some (pos n))

-- A text that the variable sets, or the default where that is blank.
abbrev pub IsOptional : Getenv → Text → Text → Text → Type 0
IsOptional env key fallback value =
    ((trim_space (env key) ≡ []) × (value ≡ fallback))
    ⊎ ((trim_space (env key) ≢ []) × (value ≡ trim_space (env key)))

-- What a chain has read, if it succeeds.
pub bind_good :
    {A B : Type 0} (m : Outcome A) (f : A → Outcome B) (b : B)
    → (m >>= f) ≡ good b
    → (a : A) × (m ≡ good a) × (f a ≡ good b)
bind_good (good a) f b e = (a, refl, e)
bind_good (bad failure) f b e = cc

empty-cases : (s : Text) → ((is_empty s ≡ true) × (s ≡ [])) ⊎ ((is_empty s ≡ false) × (s ≢ []))
empty-cases [] = inl (refl, refl)
empty-cases (c ∷ s) = inr (refl, λ z. cc)

pub required-good :
    (key raw value : Text) → required key raw ≡ good value → (value ≡ raw) × (value ≢ [])
unfolding required
required-good key [] value e = cc
required-good key (c ∷ s) value e = (cc, λ z. cc)

pub required_env-IsText :
    (env : Getenv) (key value : Text) → required_env env key ≡ good value → IsText env key value
unfolding required_env
required_env-IsText env key value e = required-good key (trim_space (env key)) value e

pub env_or_default-IsOptional :
    (env : Getenv) (key fallback : Text)
    → IsOptional env key fallback (env_or_default env key fallback)
unfolding env_or_default
env_or_default-IsOptional env key fallback = elim (empty-cases (trim_space (env key))) [
  | inl (blank, z) ↦ inl (z, rw blank refl)
  | inr (set, nz) ↦ inr (nz, rw set refl)
]

checked_positive-good :
    (key what : Text) (parsed : Option ℤ) (n : ℕ)
    → checked_positive key what parsed ≡ good n
    → (0 < n) × (parsed ≡ some (pos n))
unfolding checked_positive
checked_positive-good key what none n e = cc
checked_positive-good key what (some (pos zero)) n e = cc
checked_positive-good key what (some (pos (suc k))) n e = (ground arith, cc)
checked_positive-good key what (some (negsuc k)) n e = cc

pub required_positive_int64-IsNumber :
    (env : Getenv) (key : Text) (n : ℕ)
    → required_positive_int64 env key ≡ good n
    → IsNumber env key n
unfolding required_positive_int64
required_positive_int64-IsNumber env key n e =
    let (value, e1, e2) = bind_good (required_env env key) _ n e in
    let (same, some_value) = required_env-IsText env key value e1 in
    let (large, parsed) = checked_positive-good key _ (parse_int value) n e2 in
    (large, (λ z. some_value (same ∙ z)), ap parse_int (sym same) ∙ parsed)

setting_lem :
    (parse : Text → Option ℤ) (env : Getenv) (key shown : Text) (fallback n : ℕ)
    → parse shown ≡ some (pos fallback)
    → 0 < n
    → parse (env_or_default env key shown) ≡ some (pos n)
    → IsSetting parse env key fallback n
unfolding env_or_default
setting_lem parse env key shown fallback n known large e =
    elim (empty-cases (trim_space (env key))) [
      | inl (blank, z) ↦ (large, inl (z, let e' = rw blank at e in cc))
      | inr (set, nz) ↦ (large, inr (nz, rw set at e))
    ]

pub env_positive_int-IsSetting :
    (env : Getenv) (key : Text) (fallback n : ℕ)
    → fallback < 2 ^ 63
    → env_positive_int env key fallback ≡ good n
    → IsSetting parse_int env key fallback n
unfolding env_positive_int
env_positive_int-IsSetting env key fallback n small e =
    let (large, parsed) = checked_positive-good key _ _ n e in
    setting_lem parse_int env key (itoa fallback) fallback n (parse_int-itoa fallback small) large
      parsed

pub env_duration-IsSetting :
    (lib : Durations) (env : Getenv) (key : Text) (fallback n : ℕ)
    → lib.parse_duration (lib.format_duration fallback) ≡ some (pos fallback)
    → env_duration lib env key fallback ≡ good n
    → IsSetting lib.parse_duration env key fallback n
unfolding env_duration
env_duration-IsSetting lib env key fallback n known e =
    let (large, parsed) = checked_positive-good key _ _ n e in
    setting_lem lib.parse_duration env key (lib.format_duration fallback) fallback n known large
      parsed
