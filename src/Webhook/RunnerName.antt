-- ===== src/Webhook/RunnerName.antt =====
-- internal/webhook/handler.go, `runnerName` and `looksLikeEphemeralRunnerName`. `sha256.Sum256` is a
-- parameter.
pub mod Recognised
use github_runners_infra.Prelude.{
  ℕ, zero, suc, ◌+◌, ◌-◌, ◌/◌, ◌%◌, Bool, true, ◌&&◌, ◌||◌, Text, [], ◌∷◌, ◌++◌, map, length,
  is_empty, to_lower, codes, ltb, leb, ◌==◌, text_eq, if◌then◌else◌,
}
use github_runners_infra.Webhook.Names.{job_key}

-- A byte of the name; all but lower-case letters and digits become dashes.
unfoldable pub name_byte : ℕ → ℕ
name_byte c = if (leb b'a' c && leb c b'z') || (leb b'0' c && leb c b'9') then c else b'-'

-- s[:n], where n is at most len(s), and the whole of a shorter s.
unfoldable pub take : ℕ → Text → Text
take zero s = []
take (suc n) [] = []
take (suc n) (c ∷ s) = c ∷ take n s

-- s[n:]
unfoldable pub drop : ℕ → Text → Text
drop zero s = s
drop (suc n) [] = []
drop (suc n) (c ∷ s) = drop n s

-- strings.TrimRight(s, "-")
unfoldable pub trim_dashes : Text → Text
trim_dashes [] = []
trim_dashes (c ∷ s) =
    let rest = trim_dashes s in if is_empty rest && c == b'-' then [] else c ∷ rest

unfoldable pub hex_digit : ℕ → ℕ
hex_digit n = if ltb n 10 then b'0' + n else b'a' + (n - 10)

-- hex.EncodeToString
unfoldable pub hex_encode : Text → Text
unfolding hex_digit
hex_encode [] = []
hex_encode (b ∷ s) = hex_digit (b / 16) ∷ hex_digit (b % 16) ∷ hex_encode s

unfoldable pub is_hex_digit : ℕ → Bool
is_hex_digit c =
    (leb b'0' c && leb c b'9') || (leb b'a' c && leb c b'f') || (leb b'A' c && leb c b'F')

-- hex.DecodeString succeeds on a text of even length.
unfoldable pub all_hex : Text → Bool
unfolding is_hex_digit
all_hex [] = true
all_hex (c ∷ s) = is_hex_digit c && all_hex s

-- len("eph-"), and the bytes that a name leaves for its base: 63 - 4 - 13.
abbrev pub max_base : ℕ
max_base = 46

name_base : Text → Text
unfolding name_byte take trim_dashes to_lower
name_base repository = trim_dashes (take max_base (map name_byte (to_lower repository)))

-- `runnerName`
unfoldable pub runner_name : (Text → Text) → Text → ℕ → Text
unfolding name_base hex_encode take
runner_name sha256 repository job_id =
    codes "eph-"
    ++ (name_base repository ++ (b'-' ∷ hex_encode (take 6 (sha256 (job_key repository job_id)))))

-- `looksLikeEphemeralRunnerName`
unfoldable pub looks_like_ephemeral_runner_name : Text → Bool
unfolding take drop all_hex
looks_like_ephemeral_runner_name name =
    text_eq (take 4 name) (codes "eph-")
    && leb 18 (length name)
    && all_hex (drop (length name - 12) name)
