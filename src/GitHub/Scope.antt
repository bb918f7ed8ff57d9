-- ===== src/GitHub/Scope.antt =====
-- internal/github/app.go: the struct `App`, without its token, and `tokenScope`.
pub mod Listed
pub mod Allowlist
use github_runners_infra.Prelude.{
  ℕ, Bool, ◌||◌, ◌&&◌, not, List, [], ◌∷◌, ◌++◌, Text, codes, text_eq, is_empty, to_lower, ltb,
  ◌==◌, if◌then◌else◌, mem, length, split_text, join_texts,
}
use github_runners_infra.Webhook.Names.{trim_space}
use github_runners_infra.Webhook.Failure.{Failure, Outcome, good, bad, new_error}
use github_runners_infra.Store.Claim.{sort_keys}

pub record App : Type 0 where
  pub app_id : ℕ
  pub installation_id : ℕ
  pub private_key : Text
  pub allowed_repositories : List Text
  pub read_workflow_runs : Bool

-- What `tokenScope` returns.
pub record Scope : Type 0 where
  pub names : List Text
  pub full_names : List Text
  pub scope : Text

-- What its loop has found.
pub record Found : Type 0 where
  pub owner : Text
  pub names : List Text
  pub full_names : List Text

-- The text in quotation marks.
quoted : Text → Text
quoted s = b'"' ∷ (s ++ (b'"' ∷ []))

invalid_repository : Text → Failure
unfolding quoted
invalid_repository raw = new_error (codes "invalid installation token repository " ++ quoted raw)

-- A round of the loop, for the owner and the name of a repository.
unfoldable pub add_repository : Found → Text → Text → Text → Outcome Found
unfolding invalid_repository
add_repository f raw owner name =
    let full_name = owner ++ (b'/' ∷ name) in
    if is_empty owner || is_empty name
    then bad (invalid_repository raw)
    else if not (is_empty f.owner) && not (text_eq f.owner owner)
    then bad (new_error (codes "one installation token cannot span multiple repository owners"))
    else if mem full_name f.full_names
    then good (record f { owner = owner })
    else good (record {
      owner = owner;
      names = f.names ++ (name ∷ []);
      full_names = f.full_names ++ (full_name ∷ []);
    })

unfoldable pub add_parts : Found → Text → List Text → Outcome Found
unfolding add_repository invalid_repository
add_parts f raw (owner ∷ name ∷ []) = add_repository f raw (trim_space owner) (trim_space name)
add_parts f raw _ = bad (invalid_repository raw)

unfoldable pub scope_loop : Found → List Text → Outcome Found
unfolding add_parts
scope_loop f [] = good f
scope_loop f (raw ∷ rest) = elim (add_parts f raw (split_text b'/' (to_lower (trim_space raw)))) [
  | good found ↦ scope_loop found rest
  | bad e ↦ bad e
]

unfoldable pub scope_of : Bool → Found → Scope
scope_of read_workflow_runs f = record {
  names = sort_keys f.names;
  full_names = sort_keys f.full_names;
  scope =
      join_texts b',' (sort_keys f.full_names)
      ++ (codes "|administration:write"
          ++ (if read_workflow_runs then codes "|actions:read" else []));
}

unfoldable pub scope_from : Bool → Outcome Found → Outcome Scope
unfolding scope_of
scope_from read_workflow_runs (good found) = good (scope_of read_workflow_runs found)
scope_from read_workflow_runs (bad e) = bad e

-- `tokenScope`
unfoldable pub token_scope_of : App → Outcome Scope
unfolding scope_loop scope_from
token_scope_of app =
    if length app.allowed_repositories == 0 || ltb 500 (length app.allowed_repositories)
    then bad (new_error (codes "installation token requires 1 to 500 allowed repositories"))
    else scope_from app.read_workflow_runs
        (scope_loop (record { owner = []; names = []; full_names = [] }) app.allowed_repositories)
