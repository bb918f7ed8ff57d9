-- ===== src/Store/Identity.antt =====
-- internal/state/store.go, `runnerIdentityKey` and `completionMarkerKey`.
pub mod Keys
use github_runners_infra.Prelude.{ℕ, Text, [], ◌∷◌, ◌++◌, to_lower, itoa, codes, ◌≡◌, ◌≢◌, refl}

-- strings.ToLower(owner+"/"+repository) + "#" + strconv.FormatInt(runnerID, 10)
unfoldable pub runner_identity_key : Text → Text → ℕ → Text
runner_identity_key owner repository runner_id =
    to_lower (owner ++ (b'/' ∷ repository)) ++ (b'#' ∷ itoa runner_id)

completion_marker_prefix : Text
completion_marker_prefix = codes "_completed_runner:"

unfoldable pub completion_marker_key : Text → Text → ℕ → Text
unfolding completion_marker_prefix
completion_marker_key owner repository runner_id =
    completion_marker_prefix ++ runner_identity_key owner repository runner_id
