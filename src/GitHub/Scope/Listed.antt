-- ===== src/GitHub/Scope/Listed.antt =====
-- internal/github/app.go, `tokenScope`: a round of its loop.
use github_runners_infra.Prelude.{
  true, false, not, ◌||◌, ◌&&◌, List, [], ◌∷◌, ◌++◌, Text, text_eq, text_eq_iff, is_empty, to_lower,
  mem, split_text, ◌≡◌, ◌≢◌, ◌⊎◌, inl, inr, refl, sym, subst, ap, ◌∙◌, arith, Bool-cases,
}
use github_runners_infra.Webhook.Names.{trim_space}
use github_runners_infra.Webhook.Failure.{Outcome, good, bad}
use github_runners_infra.GitHub.Endpoints.ReadBack.{append-cancel}
use github_runners_infra.Program.Rules.{if_intro}
use github_runners_infra.GitHub.Scope.{Found, add_repository}

-- The owner and the name of a repository of the allowlist, up to case and space.
abbrev pub IsNamed : Text → Text → List Text → Type 0
IsNamed owner name (left ∷ right ∷ []) =
    (trim_space left ≡ owner) × (trim_space right ≡ name) × (owner ≢ []) × (name ≢ [])
IsNamed owner name _ = ⊥

-- Each repository has this owner.
abbrev pub AllOf : Text → List Text → Type 0
AllOf owner [] = Unit {0}
AllOf owner (raw ∷ rest) =
    ((name : Text) × IsNamed owner name (split_text b'/' (to_lower (trim_space raw))))
    × AllOf owner rest

-- One of the repositories has this name.
abbrev pub Lists : Text → Text → List Text → Type 0
Lists owner name [] = ⊥
Lists owner name (raw ∷ rest) =
    IsNamed owner name (split_text b'/' (to_lower (trim_space raw))) ⊎ Lists owner name rest

unfoldable pub qualified : Text → List Text → List Text
qualified owner [] = []
qualified owner (name ∷ names) = (owner ++ (b'/' ∷ name)) ∷ qualified owner names

mem-qualified :
    (owner name : Text) (names : List Text)
    → mem (owner ++ (b'/' ∷ name)) (qualified owner names) ≡ mem name names
unfolding mem qualified
mem-qualified owner name [] = refl
mem-qualified owner name (other ∷ names) = ground (
  arith,
  mem-qualified owner name names,
  text_eq_iff (owner ++ (b'/' ∷ other)) (owner ++ (b'/' ∷ name)),
  text_eq_iff other name,
  λ (e : owner ++ (b'/' ∷ other) ≡ owner ++ (b'/' ∷ name)).
      append-cancel owner (b'/' ∷ other) (b'/' ∷ name) e,
)

-- What the loop has found belongs to one owner.
abbrev pub IsLinked : Found → Type 0
IsLinked f = (f.full_names ≡ qualified f.owner f.names) × ((f.owner ≡ []) → f.names ≡ [])

abbrev pub Grows : Found → Text → Found → Type 0
Grows f name g =
    IsLinked g
    × ((f.owner ≡ []) ⊎ (f.owner ≡ g.owner))
    × ((other : Text) → mem other g.names ≡ (mem other f.names || text_eq name other))

qualified-append :
    (owner name : Text) (names : List Text)
    → qualified owner (names ++ (name ∷ []))
      ≡ qualified owner names ++ ((owner ++ (b'/' ∷ name)) ∷ [])
unfolding qualified
qualified-append owner name [] = refl
qualified-append owner name (other ∷ names) =
    ap (λ l. (owner ++ (b'/' ∷ other)) ∷ l) (qualified-append owner name names)

pub mem-append :
    (k name : Text) (names : List Text)
    → mem k (names ++ (name ∷ [])) ≡ (mem k names || text_eq name k)
unfolding mem
mem-append k name [] = ground arith
mem-append k name (other ∷ names) = ground (arith, mem-append k name names)

is_empty-nil : (s : Text) → is_empty s ≡ true → s ≡ []
is_empty-nil [] e = refl
is_empty-nil (c ∷ s) e = cc

nonempty : (s : Text) → is_empty s ≡ false → s ≢ []
nonempty [] e = cc
nonempty (c ∷ s) e = λ z. cc

same_owner :
    (f : Found) (owner : Text)
    → IsLinked f
    → (not (is_empty f.owner) && not (text_eq f.owner owner)) ≡ false
    → ((f.owner ≡ []) ⊎ (f.owner ≡ owner)) × (f.full_names ≡ qualified owner f.names)
unfolding qualified
same_owner f owner linked e = elim (Bool-cases (is_empty f.owner)) [
  | inl z ↦
      let none_yet = is_empty-nil f.owner z in
      let no_names = linked.1 none_yet in (inl none_yet, linked.0 ∙ rw no_names refl)
  | inr z ↦
      let same = (text_eq_iff f.owner owner).0 (ground (arith, e, z)) in
      (inr same, linked.0 ∙ ap (λ o. qualified o f.names) same)
]

-- A name that is there already.
pub known :
    (names : List Text) (name other : Text)
    → mem name names ≡ true
    → mem other names ≡ (mem other names || text_eq name other)
known names name other e = elim (Bool-cases (text_eq name other)) [
  | inl z ↦
      let same = (text_eq_iff name other).0 z in
      ground (arith, subst (λ n. mem n names ≡ true) same e, z)
  | inr z ↦ ground (arith, z)
]

-- What a round for a repository of this owner and name does.
abbrev pub IsRound : Found → Text → Text → Outcome Found → Type 0
IsRound f owner name (good g) = (owner ≢ []) × (name ≢ []) × (g.owner ≡ owner) × Grows f name g
IsRound f owner name (bad e) = Unit {0}

pub add_repository-IsRound :
    (f : Found) (raw owner name : Text)
    → IsLinked f
    → IsRound f owner name (add_repository f raw owner name)
unfolding add_repository
add_repository-IsRound f raw owner name linked =
    if_intro (IsRound f owner name) (is_empty owner || is_empty name) _ _ (λ lacks. tt)
      (λ filled.
        if_intro (IsRound f owner name) (not (is_empty f.owner) && not (text_eq f.owner owner)) _ _
          (λ other. tt)
          (λ single.
            let some_owner = nonempty owner (ground (arith, filled)) in
            let some_name = nonempty name (ground (arith, filled)) in
            let (owned, full) = same_owner f owner linked single in
            if_intro (IsRound f owner name) (mem (owner ++ (b'/' ∷ name)) f.full_names) _ _
              (λ duplicate.
                let there =
                  sym (mem-qualified owner name f.names)
                  ∙ ap (mem (owner ++ (b'/' ∷ name))) (sym full)
                  ∙ duplicate in
                (
                  some_owner,
                  some_name,
                  refl,
                  (
                    (full, λ z. absurd (some_owner z)),
                    owned,
                    λ other. known f.names name other there,
                  ),
                ))
              (λ new. (
                some_owner,
                some_name,
                refl,
                (
                  (
                    ap (λ l. l ++ ((owner ++ (b'/' ∷ name)) ∷ [])) full
                        ∙ sym (qualified-append owner name f.names),
                    λ z. absurd (some_owner z),
                  ),
                  owned,
                  λ other. mem-append other name f.names,
                ),
              ))))
