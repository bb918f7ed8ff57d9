-- ===== src/GitHub/Http.antt =====
-- internal/github: requests and replies of api.github.com, as far as the client writes and reads
-- them; headers that are the same in every request are left out. What it uses of the packages `encoding/json`, `encoding/base64`, `time` and `net/http` to
-- read and print texts is a parameter.
use github_runners_infra.Program
use github_runners_infra.Prelude.{ℕ, Bool, Option, List, ◌++◌, Text, codes}
use github_runners_infra.Dict.{Dict}
use github_runners_infra.Webhook.Failure.{Outcome}

-- The headers that the client reads; one that is missing is empty.
pub record Headers : Type 0 where
  pub retry_after : Text
  pub rate_limit_remaining : Text
  pub rate_limit_reset : Text

pub record Reply : Type 0 where
  pub status : ℕ
  pub headers : Headers
  pub body : Text

-- The bodies that the client sends.
pub data Payload : Type 0 where
  empty : Payload
  token_scope : (repositories : List Text) → (permissions : Dict Text) → Payload
  jit_config :
      (name : Text) → (runner_group_id : ℕ) → (labels : List Text) → (work_folder : Text) → Payload

pub record Request : Type 0 where
  pub method : Text
  pub url : Text
  pub authorization : Text
  pub payload : Payload

-- The fields that the client decodes.
pub record RunnerBody : Type 0 where
  pub id : ℕ
  pub status : Text

pub record JitBody : Type 0 where
  pub runner_id : ℕ
  pub encoded_jit_config : Text

pub record JobBody : Type 0 where
  pub id : ℕ
  pub status : Text

pub record PullRequest : Type 0 where
  pub number : ℕ
  pub head_repository : ℕ
  pub base_repository : ℕ

pub record RunBody : Type 0 where
  pub id : ℕ
  pub run_event : Text
  pub repository_id : ℕ
  pub repository_name : Text
  pub head_id : ℕ
  pub head_fork : Bool
  pub head_name : Text
  pub pull_requests : List PullRequest

pub record TokenBody : Type 0 where
  pub token : Text
  pub expires_at : ℕ
  pub permissions : Dict Text
  pub repositories : List Text

-- What a PEM block in PKCS #8 holds: an RSA key or another one.
pub data ParsedKey : Type 0 where
  rsa : Text → ParsedKey
  other_key : ParsedKey

-- jwt.RegisteredClaims
pub record Claims : Type 0 where
  pub issued_at : ℕ
  pub expires_at : ℕ
  pub issuer : Text

-- The parameters.
pub record Library : Type 0 where
  pub decode_runner : Text → Outcome RunnerBody
  pub decode_jit : Text → Outcome JitBody
  pub decode_job : Text → Outcome JobBody
  pub decode_run : Text → Outcome RunBody
  pub decode_token : Text → Outcome TokenBody
  pub base64_decode : Text → Option Text
  pub base64_encode : Text → Text
  pub parse_http_time : Text → Option ℕ
  pub format_time : ℕ → Text
  pub pem_decode : Text → Option Text
  pub parse_pkcs1_private_key : Text → Outcome Text
  pub parse_pkcs8_private_key : Text → Outcome ParsedKey
  pub signed_string : Claims → Text → Outcome Text

-- What the client asks of the world.
pub data Call : Type 0 where
  time_now : Call
  send : Request → Call

abbrev pub Answer : Call → Type 0
Answer time_now = ℕ
Answer (send _) = Outcome Reply

abbrev pub Prog : Type 0 → Type 0
Prog A = Program.Prog Answer A

abbrev pub History : Type 0
History = Program.History Answer

abbrev pub Environment : Type 0
Environment = Program.Environment Answer

abbrev pub call : (c : Call) → Prog (Answer c)
call c = Program.ask c Program.done

abbrev pub event : (c : Call) → Answer c → Program.Event Answer
event c r = record { asked = c; answered = r }

unfoldable pub authorized : Text → Text → Text → Payload → Request
authorized method url token payload = record {
  method = method;
  url = url;
  authorization = codes "Bearer " ++ token;
  payload = payload;
}
