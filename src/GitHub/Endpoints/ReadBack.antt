-- ===== src/GitHub/Endpoints/ReadBack.antt =====
-- internal/github: what a server reads from the endpoints of the client.
use github_runners_infra.Prelude.{
  ℕ, ◌+◌, ◌-◌, ◌*◌, ◌/◌, ◌%◌, ◌<◌, true, ltb, ◌==◌, if◌then◌else◌, Text, [], ◌∷◌, ◌++◌, codes, itoa,
  Lacks, digits_before, split_text, split_text-append, split_text-Lacks, parse_int, parse_int-itoa,
  ℤ, pos, Option, some, none, List, suc, zero, ◌^◌, ◌≡◌, ◌≢◌, refl, ap, ◌∙◌, arith, Bool-cases, inl,
  inr,
}
use github_runners_infra.GitHub.Endpoints.{
  is_unescaped, upper_hex, path_escape, actions_url, runner_url, job_url, run_url,
}

-- The value of a hexadecimal digit in upper case.
unfoldable pub unhex : ℕ → ℕ
unhex c = if ltb c b'A' then c - b'0' else c - b'A' + 10

-- Undoes the escapes of a path, as a server does.
unfoldable pub path_unescape : Text → Text
unfolding unhex
path_unescape [] = []
path_unescape (c ∷ []) = c ∷ []
path_unescape (c ∷ d ∷ []) = c ∷ d ∷ []
path_unescape (c ∷ d ∷ e ∷ s) =
    let plain = path_unescape (d ∷ e ∷ s) in
    let rest = path_unescape s in if c == b'%' then (unhex d * 16 + unhex e) ∷ rest else c ∷ plain

-- Each element is a byte.
abbrev pub AllBytes : Text → Type 0
AllBytes [] = Unit {0}
AllBytes (c ∷ s) = (c < 256) × AllBytes s

unhex-upper_hex : (n : ℕ) → n < 16 → unhex (upper_hex n) ≡ n
unfolding unhex upper_hex
unhex-upper_hex n h = ground arith

two_digits : (c : ℕ) → c < 256 → unhex (upper_hex (c / 16)) * 16 + unhex (upper_hex (c % 16)) ≡ c
two_digits c h =
    rw (unhex-upper_hex (c / 16) (omega arith), unhex-upper_hex (c % 16) (omega arith))
      (omega arith)

path_unescape-plain :
    (c : ℕ) (s : Text) → is_unescaped c ≡ true → path_unescape (c ∷ s) ≡ c ∷ path_unescape s
unfolding path_unescape is_unescaped
path_unescape-plain c [] h = refl
path_unescape-plain c (d ∷ []) h = refl
path_unescape-plain c (d ∷ e ∷ s) h = ground arith

path_unescape-escaped :
    (d e : ℕ) (s : Text)
    → path_unescape (b'%' ∷ d ∷ e ∷ s) ≡ (unhex d * 16 + unhex e) ∷ path_unescape s
unfolding path_unescape
path_unescape-escaped d e s = refl

-- What `url.PathEscape` writes is read back.
pub path_unescape-path_escape : (s : Text) → AllBytes s → path_unescape (path_escape s) ≡ s
unfolding path_escape path_unescape
path_unescape-path_escape [] h = refl
path_unescape-path_escape (c ∷ s) h = elim (Bool-cases (is_unescaped c)) [
  | inl e ↦
      rw e (
        path_unescape-plain c (path_escape s) e ∙ ap (λ t. c ∷ t) (path_unescape-path_escape s h.1))
  | inr e ↦ rw e (
      path_unescape-escaped (upper_hex (c / 16)) (upper_hex (c % 16)) (path_escape s)
      ∙ ap (λ t. (unhex (upper_hex (c / 16)) * 16 + unhex (upper_hex (c % 16))) ∷ t)
          (path_unescape-path_escape s h.1)
      ∙ ap (λ n. n ∷ s) (two_digits c h.0))
]

plain-not_slash : (c : ℕ) → is_unescaped c ≡ true → c ≢ b'/'
unfolding is_unescaped
plain-not_slash c e z = ground arith

upper_hex-not_slash : (n : ℕ) → upper_hex n ≢ b'/'
unfolding upper_hex
upper_hex-not_slash n z = ground arith

path_escape-Lacks : (s : Text) → Lacks b'/' (path_escape s)
unfolding path_escape
path_escape-Lacks [] = tt
path_escape-Lacks (c ∷ s) = elim (Bool-cases (is_unescaped c)) [
  | inl e ↦ rw e (plain-not_slash c e, path_escape-Lacks s)
  | inr e ↦ rw e (
    (λ z. omega (arith, z)),
    (upper_hex-not_slash (c / 16), (upper_hex-not_slash (c % 16), path_escape-Lacks s)),
  )
]

pub append-cancel : (p s t : Text) → p ++ s ≡ p ++ t → s ≡ t
append-cancel [] s t e = e
append-cancel (c ∷ p) s t e = append-cancel p s t (cc)

-- What a server reads from a path below a repository: its owner and name, the kind of the resource and
-- its number.
pub record Endpoint : Type 0 where
  pub owner : Text
  pub repository : Text
  pub kind : Text
  pub number : ℕ

unfoldable pub numbered : Text → Text → Text → Option ℤ → Option Endpoint
numbered owner repository kind (some (pos n)) =
    some (record { owner = owner; repository = repository; kind = kind; number = n })
numbered owner repository kind _ = none

-- The segments after the host.
unfoldable pub read_segments : List Text → Option Endpoint
unfolding numbered path_unescape
read_segments (_ ∷ _ ∷ _ ∷ _ ∷ owner ∷ repository ∷ _ ∷ kind ∷ number ∷ []) =
    numbered (path_unescape owner) (path_unescape repository) kind (parse_int number)
read_segments _ = none

unfoldable pub read_endpoint : Text → Option Endpoint
unfolding read_segments
read_endpoint url = read_segments (split_text b'/' url)

digits_before-Lacks :
    (fuel n : ℕ) (tail : Text) → Lacks b'/' tail → Lacks b'/' (digits_before fuel n tail)
unfolding digits_before
digits_before-Lacks zero n tail h = h
digits_before-Lacks (suc fuel) n tail h = elim (Bool-cases (ltb n 10)) [
  | inl small ↦ rw small ((λ z. omega (arith, z)), h)
  | inr large ↦ rw large (digits_before-Lacks fuel (n / 10) _ ((λ z. omega (arith, z)), h))
]

-- The segments of a URL of the client.
segments :
    (owner repository kind : Text) (id : ℕ)
    → Lacks b'/' kind
    → split_text b'/' (actions_url owner repository (kind ++ (b'/' ∷ itoa id)))
      ≡ codes "https:"
        ∷ []
        ∷ codes "api.github.com"
        ∷ codes "repos"
        ∷ path_escape owner
        ∷ path_escape repository
        ∷ codes "actions"
        ∷ kind
        ∷ itoa id
        ∷ []
unfolding actions_url codes split_text itoa
segments owner repository kind id plain =
    rw
      (
        split_text-append b'/' (path_escape owner) _ (path_escape-Lacks owner),
        split_text-append b'/' (path_escape repository) _ (path_escape-Lacks repository),
        split_text-append b'/' kind (itoa id) plain,
        split_text-Lacks b'/' (itoa id) (unfold itoa in digits_before-Lacks (suc id) id [] tt),
      )
      refl

read_endpoint-kind :
    (owner repository kind : Text) (id : ℕ)
    → Lacks b'/' kind
    → AllBytes owner
    → AllBytes repository
    → id < 2 ^ 63
    → read_endpoint (actions_url owner repository (kind ++ (b'/' ∷ itoa id)))
      ≡ some (record { owner = owner; repository = repository; kind = kind; number = id })
unfolding read_endpoint
read_endpoint-kind owner repository kind id plain o r small =
    rw
      (
        segments owner repository kind id plain,
        path_unescape-path_escape owner o,
        path_unescape-path_escape repository r,
        parse_int-itoa id small,
      )
      refl

-- From the URLs about runners, jobs and runs a server reads the owner, the repository and the number
-- that they were made of, where the names are texts of bytes and the number is below 2^63.
pub read_endpoint-urls :
    (owner repository : Text) (id : ℕ)
    → AllBytes owner
    → AllBytes repository
    → id < 2 ^ 63
    → (read_endpoint (runner_url owner repository id)
        ≡ some (record {
          owner = owner;
          repository = repository;
          kind = codes "runners";
          number = id;
        }))
      × (read_endpoint (job_url owner repository id)
          ≡ some
              (record { owner = owner; repository = repository; kind = codes "jobs"; number = id }))
      × (read_endpoint (run_url owner repository id)
          ≡ some
              (record { owner = owner; repository = repository; kind = codes "runs"; number = id }))
unfolding runner_url job_url run_url codes
read_endpoint-urls owner repository id o r small = (
  read_endpoint-kind owner repository (codes "runners") id (omega arith) o r small,
  read_endpoint-kind owner repository (codes "jobs") id (omega arith) o r small,
  read_endpoint-kind owner repository (codes "runs") id (omega arith) o r small,
)
