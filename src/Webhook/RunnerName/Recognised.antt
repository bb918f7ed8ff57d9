-- ===== src/Webhook/RunnerName/Recognised.antt =====
-- internal/webhook/handler.go: `looksLikeEphemeralRunnerName` knows the names that `runnerName` gives.
use github_runners_infra.Prelude.{
  ℕ, zero, suc, ◌+◌, ◌-◌, ◌*◌, ◌/◌, ◌%◌, ◌≤◌, ◌<◌, true, Text, [], ◌∷◌, ◌++◌, map, length,
  length-append, to_lower, lower_byte, codes, text_eq, ◌≡◌, ◌≢◌, inl, inr, refl, Bool-cases,
  text_eq_iff, arith, ap, sym, subst, ◌∙◌,
}
use github_runners_infra.Webhook.Names.{job_key, is_alphanumeric, is_safe_name, is_safe_repo_name}
use github_runners_infra.Webhook.RunnerName.{
  name_byte, take, drop, trim_dashes, hex_digit, hex_encode, is_hex_digit, all_hex, max_base,
  name_base, runner_name, looks_like_ephemeral_runner_name,
}

-- The documented results of SHA-256: 32 bytes.
abbrev pub AllBytes : Text → Type 0
AllBytes [] = Unit {0}
AllBytes (c ∷ s) = (c < 256) × AllBytes s

pub record IsDigest (s : Text) : Type 0 where
  pub size : length s ≡ 32
  pub bytes : AllBytes s

hex_digit-is_hex_digit : (n : ℕ) → n < 16 → is_hex_digit (hex_digit n) ≡ true
unfolding is_hex_digit hex_digit
hex_digit-is_hex_digit n h = ground arith

hex_encode-all_hex : (s : Text) → AllBytes s → all_hex (hex_encode s) ≡ true
unfolding all_hex hex_encode
hex_encode-all_hex [] h = refl
hex_encode-all_hex (c ∷ s) h =
    rw
      (hex_digit-is_hex_digit (c / 16) (omega arith), hex_digit-is_hex_digit (c % 16) (omega arith))
      (hex_encode-all_hex s h.1)

hex_encode-length : (s : Text) → length (hex_encode s) ≡ 2 * length s
unfolding hex_encode
hex_encode-length [] = refl
hex_encode-length (c ∷ s) = omega (arith, hex_encode-length s)

take-AllBytes : (n : ℕ) (s : Text) → AllBytes s → AllBytes (take n s)
unfolding take
take-AllBytes zero s h = tt
take-AllBytes (suc n) [] h = tt
take-AllBytes (suc n) (c ∷ s) h = (h.0, take-AllBytes n s h.1)

length-take : (n : ℕ) (s : Text) → n ≤ length s → length (take n s) ≡ n
unfolding take
length-take zero s h = refl
length-take (suc n) [] h = absurd (omega arith)
length-take (suc n) (c ∷ s) h = ap suc (length-take n s (omega arith))

length-take_most : (n : ℕ) (s : Text) → length (take n s) ≤ n
unfolding take
length-take_most zero s = omega arith
length-take_most (suc n) [] = omega arith
length-take_most (suc n) (c ∷ s) = omega (arith, length-take_most n s)

length-trim_dashes : (s : Text) → length (trim_dashes s) ≤ length s
unfolding trim_dashes
length-trim_dashes [] = omega arith
length-trim_dashes (c ∷ s) = ground (arith, length-trim_dashes s)

drop-append : (s t : Text) → drop (length s) (s ++ t) ≡ t
unfolding drop
drop-append [] t = refl
drop-append (c ∷ s) t = drop-append s t

-- A base that starts with a letter or a digit is not empty.
trim_dashes-cons : (c : ℕ) (s : Text) → c ≢ b'-' → 1 ≤ length (trim_dashes (c ∷ s))
unfolding trim_dashes
trim_dashes-cons c s h = ground arith

-- The base, of a name in lower case.
abbrev base_of : Text → Text
base_of s = trim_dashes (take max_base (map name_byte s))

alphanumeric_byte :
    (x : ℕ) → is_alphanumeric (lower_byte x) ≡ true → name_byte (lower_byte x) ≢ b'-'
unfolding is_alphanumeric lower_byte name_byte
alphanumeric_byte x h e = ground arith

base_of-github : 1 ≤ length (base_of (codes ".github"))
unfolding codes name_byte take trim_dashes
base_of-github = omega arith

base-is_safe_name :
    (repository : Text)
    → is_safe_name (to_lower repository) ≡ true
    → 1 ≤ length (base_of (to_lower repository))
unfolding is_safe_name to_lower take
base-is_safe_name [] h = cc
base-is_safe_name (x ∷ rest) h =
    trim_dashes-cons (name_byte (lower_byte x)) _ (alphanumeric_byte x (ground arith))

base-is_safe_repo_name :
    (repository : Text)
    → is_safe_repo_name (to_lower repository) ≡ true
    → 1 ≤ length (base_of (to_lower repository))
unfolding is_safe_repo_name
base-is_safe_repo_name repository h =
    elim (Bool-cases (text_eq (to_lower repository) (codes ".github"))) [
      | inl e ↦ subst (λ s. 1 ≤ length (base_of s)) (sym ((text_eq_iff _ _).0 e)) base_of-github
      | inr e ↦ base-is_safe_name repository (ground arith)
    ]

append-cons : (s t : Text) (c : ℕ) → s ++ (c ∷ t) ≡ (s ++ (c ∷ [])) ++ t
append-cons [] t c = refl
append-cons (x ∷ s) t c = ap (λ u. x ∷ u) (append-cons s t c)

drop-end : (s t : Text) → drop (length (s ++ t) - length t) (s ++ t) ≡ t
drop-end s t =
    let size : length (s ++ t) - length t ≡ length s = omega (arith, length-append s t) in
    subst (λ n. drop n (s ++ t) ≡ t) (sym size) (drop-append s t)

-- The name that `runnerName` puts together.
abbrev name_of : Text → Text → Text
name_of base hex = codes "eph-" ++ (base ++ (b'-' ∷ hex))

name_of-drop :
    (base hex : Text)
    → length hex ≡ 12
    → drop (length (name_of base hex) - 12) (name_of base hex) ≡ hex
unfolding codes
name_of-drop base hex twelve =
    subst (λ s. drop (length s - 12) s ≡ hex)
      (sym (ap (λ s. codes "eph-" ++ s) (append-cons base hex b'-')))
      (subst
        (λ n.
          drop (length ((codes "eph-" ++ (base ++ (b'-' ∷ []))) ++ hex) - n)
            ((codes "eph-" ++ (base ++ (b'-' ∷ []))) ++ hex)
          ≡ hex)
        twelve (drop-end (codes "eph-" ++ (base ++ (b'-' ∷ []))) hex))

length-name_of : (base hex : Text) → length hex ≡ 12 → length (name_of base hex) ≡ length base + 17
unfolding codes
length-name_of base hex twelve = omega (arith, length-append base (b'-' ∷ hex), twelve)

name_of-prefix : (base hex : Text) → text_eq (take 4 (name_of base hex)) (codes "eph-") ≡ true
unfolding codes take text_eq
name_of-prefix base hex = refl

name_of-IsRecognised :
    (base hex : Text)
    → 1 ≤ length base
    → length base ≤ 46
    → length hex ≡ 12
    → all_hex hex ≡ true
    → (looks_like_ephemeral_runner_name (name_of base hex) ≡ true)
      × (length (name_of base hex) ≤ 63)
unfolding looks_like_ephemeral_runner_name
name_of-IsRecognised base hex some few twelve valid =
    let ends : all_hex (drop (length (name_of base hex) - 12) (name_of base hex)) ≡ true =
      ap all_hex (name_of-drop base hex twelve) ∙ valid in
    (
      ground (arith, ends, name_of-prefix base hex, length-name_of base hex twelve),
      omega (arith, length-name_of base hex twelve),
    )

-- `looksLikeEphemeralRunnerName` knows every name that `runnerName` gives for a repository whose name
-- is valid in lower case, and the name has at most 63 bytes, where a digest of SHA-256 has 32 bytes.
pub runner_name-IsRecognised :
    (sha256 : Text → Text) (digest : (s : Text) → IsDigest (sha256 s)) (repository : Text)
    (job_id : ℕ)
    → is_safe_repo_name (to_lower repository) ≡ true
    → (looks_like_ephemeral_runner_name (runner_name sha256 repository job_id) ≡ true)
      × (length (runner_name sha256 repository job_id) ≤ 63)
unfolding runner_name name_base
runner_name-IsRecognised sha256 digest repository job_id safe =
    let hash = sha256 (job_key repository job_id) in
    let d = digest (job_key repository job_id) in
    let kept : length (take 6 hash) ≡ 6 = length-take 6 hash (omega (arith, d.size)) in
    name_of-IsRecognised (base_of (to_lower repository)) (hex_encode (take 6 hash))
      (base-is_safe_repo_name repository safe)
      (omega (
        arith,
        length-trim_dashes (take max_base (map name_byte (to_lower repository))),
        length-take_most max_base (map name_byte (to_lower repository)),
      ))
      (omega (arith, hex_encode-length (take 6 hash), kept))
      (hex_encode-all_hex (take 6 hash) (take-AllBytes 6 hash d.bytes))
