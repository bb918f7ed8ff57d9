-- ===== src/Webhook/Names.antt =====
-- internal/webhook/handler.go: the regular expressions for names, and the functions of the package
-- `strings` that the handler applies to names.
use github_runners_infra.Prelude.{
  ℕ, Bool, true, false, ◌&&◌, ◌||◌, [], ◌∷◌, Text, text_eq, is_empty, to_lower, leb, ◌==◌, length,
  codes, itoa, ◌++◌, if◌then◌else◌,
}

-- White space of `strings.TrimSpace` in ASCII.
is_space : ℕ → Bool
is_space c = (leb 9 c && leb c 13) || c == 32

trim_left : Text → Text
unfolding is_space
trim_left [] = []
trim_left (c ∷ s) = let rest = trim_left s in if is_space c then rest else c ∷ s

trim_right : Text → Text
unfolding is_space
trim_right [] = []
trim_right (c ∷ s) = let rest = trim_right s in if is_empty rest && is_space c then [] else c ∷ rest

-- `strings.TrimSpace`
unfoldable pub trim_space : Text → Text
unfolding trim_left trim_right
trim_space s = trim_right (trim_left s)

unfoldable pub is_alphanumeric : ℕ → Bool
is_alphanumeric c =
    (leb b'a' c && leb c b'z') || (leb b'A' c && leb c b'Z') || (leb b'0' c && leb c b'9')

-- [a-zA-Z0-9._-]
unfoldable pub is_name_byte : ℕ → Bool
unfolding is_alphanumeric
is_name_byte c = is_alphanumeric c || c == b'.' || c == b'_' || c == b'-'

unfoldable pub all_name_bytes : Text → Bool
unfolding is_name_byte
all_name_bytes [] = true
all_name_bytes (c ∷ s) = is_name_byte c && all_name_bytes s

-- ^[a-zA-Z0-9][a-zA-Z0-9._-]{0,99}$
unfoldable pub is_safe_name : Text → Bool
unfolding is_alphanumeric all_name_bytes
is_safe_name [] = false
is_safe_name (c ∷ s) = is_alphanumeric c && all_name_bytes s && leb (length s) 99

-- ^(\.github|[a-zA-Z0-9][a-zA-Z0-9._-]{0,99})$
unfoldable pub is_safe_repo_name : Text → Bool
unfolding is_safe_name
is_safe_repo_name s = text_eq s (codes ".github") || is_safe_name s

-- The key of a record.
unfoldable pub job_key : Text → ℕ → Text
job_key repository job_id = to_lower repository ++ (b':' ∷ itoa job_id)
