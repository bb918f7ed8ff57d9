-- ===== src/GitHub/Endpoints.antt =====
-- internal/github: the endpoints of the client, with `url.PathEscape` of net/url.
pub mod ReadBack
use github_runners_infra.Prelude.{
  ℕ, ◌+◌, ◌-◌, ◌/◌, ◌%◌, Bool, ◌||◌, ◌&&◌, leb, ltb, ◌==◌, if◌then◌else◌, Text, [], ◌∷◌, ◌++◌,
  codes, itoa,
}

-- Bytes that stand for themselves in a segment of a path.
unfoldable pub is_unescaped : ℕ → Bool
is_unescaped c =
    (leb b'a' c && leb c b'z')
    || (leb b'A' c && leb c b'Z')
    || (leb b'0' c && leb c b'9')
    || c == b'-'
    || c == b'_'
    || c == b'.'
    || c == b'~'
    || c == b'$'
    || c == b'&'
    || c == b'+'
    || c == b'='
    || c == b':'
    || c == b'@'

unfoldable pub upper_hex : ℕ → ℕ
upper_hex n = if ltb n 10 then b'0' + n else b'A' + (n - 10)

-- url.PathEscape
unfoldable pub path_escape : Text → Text
unfolding is_unescaped upper_hex
path_escape [] = []
path_escape (c ∷ s) =
    if is_unescaped c
    then c ∷ path_escape s
    else b'%' ∷ upper_hex (c / 16) ∷ upper_hex (c % 16) ∷ path_escape s

-- https://api.github.com/repos/<owner>/<repo>/actions/<rest>
unfoldable pub actions_url : Text → Text → Text → Text
unfolding path_escape
actions_url owner repo rest =
    codes "https://api.github.com/repos/"
    ++ (path_escape owner ++ (b'/' ∷ (path_escape repo ++ (codes "/actions/" ++ rest))))

unfoldable pub runner_url : Text → Text → ℕ → Text
unfolding actions_url
runner_url owner repo id = actions_url owner repo (codes "runners/" ++ itoa id)

unfoldable pub jit_url : Text → Text → Text
unfolding actions_url
jit_url owner repo = actions_url owner repo (codes "runners/generate-jitconfig")

unfoldable pub job_url : Text → Text → ℕ → Text
unfolding actions_url
job_url owner repo id = actions_url owner repo (codes "jobs/" ++ itoa id)

unfoldable pub run_url : Text → Text → ℕ → Text
unfolding actions_url
run_url owner repo id = actions_url owner repo (codes "runs/" ++ itoa id)

unfoldable pub token_url : ℕ → Text
token_url installation_id =
    codes "https://api.github.com/app/installations/"
    ++ (itoa installation_id ++ codes "/access_tokens")
