-- ===== src/GitHub/Workflows/Origin.antt =====
-- internal/github/workflow.go: which runs come from the repository itself.
use github_runners_infra.Prelude.{
  ℕ, true, false, ◌||◌, List, [], ◌∷◌, ◌++◌, Text, codes, text_eq, text_eq_iff, equal_fold,
  to_lower, ◌≡◌, ◌≢◌, ◌⊎◌, inl, inr, refl, arith, Bool-cases,
}
use github_runners_infra.GitHub.Http.{RunBody, PullRequest}
use github_runners_infra.GitHub.Workflows.{all_internal, are_internal, is_trusted_event, is_trusted}

-- The pull request goes from the repository to itself.
abbrev pub IsInternal : ℕ → PullRequest → Type 0
IsInternal repository_id pr =
    (pr.number ≢ 0) × (pr.head_repository ≡ repository_id) × (pr.base_repository ≡ repository_id)

abbrev pub AllInternal : ℕ → List PullRequest → Type 0
AllInternal repository_id [] = Unit {0}
AllInternal repository_id (pr ∷ rest) = IsInternal repository_id pr × AllInternal repository_id rest

abbrev pub IsTriggered : RunBody → Type 0
IsTriggered body =
    ((body.run_event ≡ codes "pull_request")
      × ((body.pull_requests ≢ []) × AllInternal body.repository_id body.pull_requests))
    ⊎ (body.run_event ≡ codes "push")
    ⊎ (body.run_event ≡ codes "schedule")
    ⊎ (body.run_event ≡ codes "workflow_dispatch")

-- Code of the repository itself, started by a trigger that only its members control.
pub record IsTrusted (owner repo : Text) (run_id : ℕ) (body : RunBody) : Type 0 where
  pub same_run : body.id ≡ run_id
  pub same_names :
      (to_lower body.repository_name ≡ to_lower (owner ++ (b'/' ∷ repo)))
      × (to_lower body.head_name ≡ to_lower (owner ++ (b'/' ∷ repo)))
  pub same_repository : (body.repository_id ≢ 0) × (body.head_id ≡ body.repository_id)
  pub no_fork : body.head_fork ≡ false
  pub trigger : IsTriggered body

all_internal-AllInternal :
    (repository_id : ℕ) (prs : List PullRequest)
    → all_internal repository_id prs ≡ true
    → AllInternal repository_id prs
unfolding all_internal
all_internal-AllInternal repository_id [] e = tt
all_internal-AllInternal repository_id (pr ∷ rest) e =
    (ground arith, all_internal-AllInternal repository_id rest (ground arith))

AllInternal-all_internal :
    (repository_id : ℕ) (prs : List PullRequest)
    → AllInternal repository_id prs
    → all_internal repository_id prs ≡ true
unfolding all_internal
AllInternal-all_internal repository_id [] h = refl
AllInternal-all_internal repository_id (pr ∷ rest) h =
    ground (arith, AllInternal-all_internal repository_id rest h.1, h.0.0, h.0.1, h.0.2)

are_internal-AllInternal :
    (repository_id : ℕ) (prs : List PullRequest)
    → are_internal repository_id prs ≡ true
    → (prs ≢ []) × AllInternal repository_id prs
unfolding are_internal
are_internal-AllInternal repository_id [] e = cc
are_internal-AllInternal repository_id (pr ∷ rest) e =
    ((λ z. cc), all_internal-AllInternal repository_id (pr ∷ rest) e)

AllInternal-are_internal :
    (repository_id : ℕ) (prs : List PullRequest)
    → (prs ≢ []) × AllInternal repository_id prs
    → are_internal repository_id prs ≡ true
unfolding are_internal
AllInternal-are_internal repository_id [] h = absurd (h.0 refl)
AllInternal-are_internal repository_id (pr ∷ rest) h =
    AllInternal-all_internal repository_id (pr ∷ rest) h.1

other_trigger :
    (name : Text)
    → (text_eq name (codes "push")
        || text_eq name (codes "schedule")
        || text_eq name (codes "workflow_dispatch"))
      ≡ true
    → (name ≡ codes "push") ⊎ (name ≡ codes "schedule") ⊎ (name ≡ codes "workflow_dispatch")
other_trigger name e = elim (Bool-cases (text_eq name (codes "push"))) [
  | inl p ↦ inl ((text_eq_iff name (codes "push")).0 p)
  | inr p ↦ elim (Bool-cases (text_eq name (codes "schedule"))) [
    | inl q ↦ inr (inl ((text_eq_iff name (codes "schedule")).0 q))
    | inr q ↦ inr (inr ((text_eq_iff name (codes "workflow_dispatch")).0 (ground (arith, p, q, e))))
  ]
]

is_trusted_event-trigger : (body : RunBody) → is_trusted_event body ≡ true → IsTriggered body
unfolding is_trusted_event
is_trusted_event-trigger body e =
    elim (Bool-cases (text_eq body.run_event (codes "pull_request"))) [
      | inl p ↦ inl (
        (text_eq_iff body.run_event (codes "pull_request")).0 p,
        are_internal-AllInternal body.repository_id body.pull_requests (ground (arith, p, e)),
      )
      | inr p ↦ inr (other_trigger body.run_event (ground (arith, p, e)))
    ]

trigger-is_trusted_event : (body : RunBody) → IsTriggered body → is_trusted_event body ≡ true
unfolding is_trusted_event text_eq codes
trigger-is_trusted_event body (inl (name, prs)) = ground (
  arith,
  text_eq_iff body.run_event (codes "pull_request"),
  AllInternal-are_internal body.repository_id body.pull_requests prs,
)
trigger-is_trusted_event body (inr (inl name)) = rw name refl
trigger-is_trusted_event body (inr (inr (inl name))) = rw name refl
trigger-is_trusted_event body (inr (inr (inr name))) = rw name refl

pub is_trusted-IsTrusted :
    (owner repo : Text) (run_id : ℕ) (body : RunBody)
    → is_trusted owner repo run_id body ≡ true
    → IsTrusted owner repo run_id body
unfolding is_trusted equal_fold
is_trusted-IsTrusted owner repo run_id body e = record {
  same_run = ground arith;
  same_names = (
    ground (arith, text_eq_iff (to_lower body.repository_name) (to_lower (owner ++ (b'/' ∷ repo)))),
    ground (arith, text_eq_iff (to_lower body.head_name) (to_lower (owner ++ (b'/' ∷ repo)))),
  );
  same_repository = ((λ z. ground (arith, z)), ground arith);
  no_fork = ground arith;
  trigger = is_trusted_event-trigger body (ground arith);
}

pub IsTrusted-is_trusted :
    (owner repo : Text) (run_id : ℕ) (body : RunBody)
    → IsTrusted owner repo run_id body
    → is_trusted owner repo run_id body ≡ true
unfolding is_trusted equal_fold
IsTrusted-is_trusted owner repo run_id body t = ground (
  arith,
  text_eq_iff (to_lower body.repository_name) (to_lower (owner ++ (b'/' ∷ repo))),
  text_eq_iff (to_lower body.head_name) (to_lower (owner ++ (b'/' ∷ repo))),
  t.same_run,
  t.same_names,
  t.same_repository,
  t.no_fork,
  trigger-is_trusted_event body t.trigger,
)
