-- ===== src/GitHub/Scope/Allowlist.antt =====
-- internal/github/app.go, `tokenScope`: the scope is the allowlist.
use github_runners_infra.Prelude.{
  ◌<◌, ◌≤◌, true, false, ◌||◌, List, [], ◌∷◌, Text, text_eq, text_eq_iff, ◌==◌, ltb, to_lower, mem,
  split_text, length, ◌≡◌, ◌≢◌, ◌↔◌, ◌⊎◌, inl, inr, refl, sym, subst, ap, ◌∙◌, arith, Bool-cases,
}
use github_runners_infra.Webhook.Names.{trim_space}
use github_runners_infra.Webhook.Failure.{Outcome, good, bad}
use github_runners_infra.Store.Claim.{sort_keys}
use github_runners_infra.Store.Claim.Answer.{mem-sort_keys}
use github_runners_infra.GitHub.Scope.Listed.{
  IsNamed, AllOf, Lists, qualified, IsLinked, Grows, IsRound, add_repository-IsRound,
}
use github_runners_infra.Program.Rules.{if_intro}
use github_runners_infra.GitHub.Scope.{
  App, Scope, Found, add_repository, add_parts, scope_loop, scope_of, scope_from, token_scope_of,
}

-- What the rounds for some repositories do.
abbrev AreRounds : Found → List Text → Outcome Found → Type 0
AreRounds f repositories (good g) =
    IsLinked g
    × AllOf g.owner repositories
    × ((f.owner ≡ []) ⊎ (f.owner ≡ g.owner))
    × ((name : Text)
        → (mem name g.names ≡ true) ↔ ((mem name f.names ≡ true) ⊎ Lists g.owner name repositories))
AreRounds f repositories (bad e) = Unit {0}

-- What a round for the parts of a repository does.
abbrev IsPart : Found → List Text → Outcome Found → Type 0
IsPart f parts (good g) = (name : Text) × IsNamed g.owner name parts × Grows f name g
IsPart f parts (bad e) = Unit {0}

named_round :
    (f : Found) (left right : Text) (answer : Outcome Found)
    → IsRound f (trim_space left) (trim_space right) answer
    → IsPart f (left ∷ right ∷ []) answer
named_round f left right (good g) (some_owner, some_name, same, grows) =
    (trim_space right, (sym same, refl, (λ z. some_owner (sym same ∙ z)), some_name), grows)
named_round f left right (bad e) r = tt

add_parts-IsPart :
    (f : Found) (raw : Text) (parts : List Text)
    → IsLinked f
    → IsPart f parts (add_parts f raw parts)
unfolding add_parts
add_parts-IsPart f raw [] linked = tt
add_parts-IsPart f raw (left ∷ []) linked = tt
add_parts-IsPart f raw (left ∷ right ∷ []) linked =
    named_round f left right (add_repository f raw (trim_space left) (trim_space right))
      (add_repository-IsRound f raw (trim_space left) (trim_space right) linked)
add_parts-IsPart f raw (left ∷ right ∷ more ∷ parts) linked = tt

one_name :
    (owner name other : Text) (parts : List Text)
    → IsNamed owner name parts
    → IsNamed owner other parts
    → name ≡ other
one_name owner name other [] n m = absurd n
one_name owner name other (left ∷ []) n m = absurd n
one_name owner name other (left ∷ right ∷ []) n m = sym n.1 ∙ m.1
one_name owner name other (left ∷ right ∷ more ∷ parts) n m = absurd n

IsNamed-owned : (owner name : Text) (parts : List Text) → IsNamed owner name parts → owner ≢ []
IsNamed-owned owner name [] n = absurd n
IsNamed-owned owner name (left ∷ []) n = absurd n
IsNamed-owned owner name (left ∷ right ∷ []) n = n.2
IsNamed-owned owner name (left ∷ right ∷ more ∷ parts) n = absurd n

continues : {a b : Text} → (a ≡ []) ⊎ (a ≡ b) → a ≢ [] → a ≡ b
continues (inl z) some_a = absurd (some_a z)
continues (inr e) some_a = e

follows : {a b c : Text} → (a ≡ []) ⊎ (a ≡ b) → b ≡ c → (a ≡ []) ⊎ (a ≡ c)
follows (inl z) e = inl z
follows (inr e) e' = inr (e ∙ e')

module _ (f g g2 : Found) (raw : Text) (rest : List Text) where
  abbrev parts : List Text
  parts = split_text b'/' (to_lower (trim_space raw))

  listed :
      (name other : Text)
      → IsNamed g2.owner name parts
      → mem other g.names ≡ (mem other f.names || text_eq name other)
      → (mem other g.names ≡ true) ⊎ Lists g2.owner other rest
      → (mem other f.names ≡ true) ⊎ Lists g2.owner other (raw ∷ rest)
  listed name other n e (inr later) = inr (inr later)
  listed name other n e (inl here) = elim (Bool-cases (text_eq name other)) [
    | inl same ↦
        inr (inl (subst (λ t. IsNamed g2.owner t parts) ((text_eq_iff name other).0 same) n))
    | inr differs ↦ inl (ground (arith, e, here, differs))
  ]

  unlisted :
      (name other : Text)
      → IsNamed g2.owner name parts
      → mem other g.names ≡ (mem other f.names || text_eq name other)
      → (mem other f.names ≡ true) ⊎ Lists g2.owner other (raw ∷ rest)
      → (mem other g.names ≡ true) ⊎ Lists g2.owner other rest
  unlisted name other n e (inl here) = inl (ground (arith, e, here))
  unlisted name other n e (inr (inl now)) =
      inl (ground (arith, e, (text_eq_iff name other).1 (one_name g2.owner name other parts n now)))
  unlisted name other n e (inr (inr later)) = inr later

  both-AreRounds :
      IsPart f parts (good g) → AreRounds g rest (good g2) → AreRounds f (raw ∷ rest) (good g2)
  both-AreRounds (name, n, (linked, before, grows)) (linked2, all, after, members) =
      let same = continues after (IsNamed-owned g.owner name parts n) in
      let n2 = subst (λ o. IsNamed o name parts) same n in
      (
        linked2,
        ((name, n2), all),
        follows before same,
        λ other. (
          (λ e. listed name other n2 (grows other) ((members other).0 e)),
          λ l. (members other).1 (unlisted name other n2 (grows other) l),
        ),
      )

next-AreRounds :
    (f : Found) (raw : Text) (rest : List Text) (g : Found) (answer : Outcome Found)
    → IsPart f (split_text b'/' (to_lower (trim_space raw))) (good g)
    → AreRounds g rest answer
    → AreRounds f (raw ∷ rest) answer
next-AreRounds f raw rest g (good g2) part rounds = both-AreRounds f g g2 raw rest part rounds
next-AreRounds f raw rest g (bad e) part rounds = tt

scope_loop-AreRounds :
    (f : Found) (repositories : List Text)
    → IsLinked f
    → AreRounds f repositories (scope_loop f repositories)
unfolding scope_loop
scope_loop-AreRounds f [] linked =
    (linked, tt, inr refl, λ name. ((λ e. inl e), λ e. elim e [ inl h ↦ h | inr l ↦ absurd l ]))
scope_loop-AreRounds f (raw ∷ rest) linked =
    elim (add_parts f raw (split_text b'/' (to_lower (trim_space raw))))
        as (λ o.
          IsPart f (split_text b'/' (to_lower (trim_space raw))) o
          → AreRounds f (raw ∷ rest)
              (elim o [ good found ↦ scope_loop found rest | bad e ↦ bad e ])) [
                | good g ↦ λ part.
                    next-AreRounds f raw rest g (scope_loop g rest) part
                      (scope_loop-AreRounds g rest part.2.0)
                | bad e ↦ λ _. tt
              ]
      (add_parts-IsPart f raw (split_text b'/' (to_lower (trim_space raw))) linked)

-- The scope is the allowlist: all of one owner, and each name is asked for exactly if it is listed;
-- the full names are those of the names.
abbrev pub IsAllowlist : App → Outcome Scope → Type 0
IsAllowlist app (good s) =
    (owner : Text) × (names : List Text) × (0 < length app.allowed_repositories)
    × (length app.allowed_repositories ≤ 500)
    × AllOf owner app.allowed_repositories
    × ((name : Text) → (mem name s.names ≡ true) ↔ Lists owner name app.allowed_repositories)
    × (s.names ≡ sort_keys names)
    × (s.full_names ≡ sort_keys (qualified owner names))
IsAllowlist app (bad e) = Unit {0}

left_out : {A : Type 0} → (false ≡ true) ⊎ A → A
left_out (inl e) = cc
left_out (inr a) = a

scope_from-IsAllowlist :
    (app : App) (answer : Outcome Found)
    → 0 < length app.allowed_repositories
    → length app.allowed_repositories ≤ 500
    → AreRounds (record { owner = []; names = []; full_names = [] }) app.allowed_repositories answer
    → IsAllowlist app (scope_from app.read_workflow_runs answer)
unfolding scope_from scope_of mem
scope_from-IsAllowlist app (good g) some_one few (linked, all, _, members) = (
  g.owner,
  g.names,
  some_one,
  few,
  all,
  λ name. (
    (λ e. left_out ((members name).0 (sym (mem-sort_keys name g.names) ∙ e))),
    λ l. mem-sort_keys name g.names ∙ (members name).1 (inr l),
  ),
  refl,
  ap sort_keys linked.0,
)
scope_from-IsAllowlist app (bad e) some_one few rounds = tt

-- `tokenScope` succeeds only for 1 to 500 repositories, all of one owner up to case and space; it asks
-- for a name exactly if a repository of the allowlist has it, and expects the full names of these.
pub token_scope_of-IsAllowlist : (app : App) → IsAllowlist app (token_scope_of app)
unfolding token_scope_of qualified
token_scope_of-IsAllowlist app =
    if_intro (IsAllowlist app)
      (length app.allowed_repositories == 0 || ltb 500 (length app.allowed_repositories)) _ _
      (λ refused. tt)
      (λ counted.
        scope_from-IsAllowlist app
          (scope_loop (record { owner = []; names = []; full_names = [] }) app.allowed_repositories)
          (ground (arith, counted)) (ground (arith, counted))
          (scope_loop-AreRounds (record { owner = []; names = []; full_names = [] })
            app.allowed_repositories (refl, λ _. refl)))
