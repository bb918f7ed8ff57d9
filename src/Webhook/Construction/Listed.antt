-- ===== src/Webhook/Construction/Listed.antt =====
-- internal/webhook/handler.go, `normalizeAllowedRepositories` and the loop over the public repositories:
-- which names the lists get.
use github_runners_infra.Prelude.{
  ◌||◌, ◌⊎◌, ◌↔◌, text_eq, text_eq_iff, true, List, [], ◌∷◌, Text, mem, ◌≡◌, inl, inr, sym, subst,
  arith, Bool-cases,
}
use github_runners_infra.Webhook.{Checked, accepted}
use github_runners_infra.GitHub.Scope.Listed.{known, mem-append}
use github_runners_infra.Webhook.Construction.{
  valid_repository, repository_key, insert, allow_repositories, allow_public,
}

-- One of the configured repositories has this name, up to case and space.
abbrev pub Keyed : Text → List Text → Type 0
Keyed name [] = ⊥
Keyed name (raw ∷ rest) = (repository_key raw ≡ name) ⊎ Keyed name rest

mem-insert :
    (k name : Text) (names : List Text)
    → mem k (insert name names) ≡ (text_eq name k || mem k names)
unfolding insert
mem-insert k name names = elim (Bool-cases (mem name names)) [
  | inl there ↦ let known_lem = known names name k there in rw there (ground (arith, known_lem))
  | inr new ↦ let appended = mem-append k name names in rw new (ground (arith, appended))
]

-- The names of a list are those that were there and the keys of the repositories.
abbrev pub IsKeyed : List Text → List Text → List Text → Type 0
IsKeyed raw before names =
    (name : Text) → (mem name names ≡ true) ↔ ((mem name before ≡ true) ⊎ Keyed name raw)

IsKeyed-nil : (before names : List Text) → before ≡ names → IsKeyed [] before names
IsKeyed-nil before names same name = (
  λ there. inl (subst (λ l. mem name l ≡ true) (sym same) there),
  elim [ inl there ↦ subst (λ l. mem name l ≡ true) same there | inr none ↦ absurd none ],
)

inserted :
    (k name : Text) (names : List Text)
    → (mem k (insert name names) ≡ true) ↔ ((name ≡ k) ⊎ (mem k names ≡ true))
inserted k name names = (
  λ there. elim (Bool-cases (text_eq name k)) [
    | inl same ↦ inl ((text_eq_iff name k).0 same)
    | inr other ↦ let m = mem-insert k name names in inr (ground (arith, m, there, other))
  ],
  elim [
    | inl same ↦
        let e = (text_eq_iff name k).1 same in
        let m = mem-insert k name names in ground (arith, m, e)
    | inr there ↦ let m = mem-insert k name names in ground (arith, m, there)
  ],
)

IsKeyed-cons :
    (raw : Text) (rest before names : List Text)
    → IsKeyed rest (insert (repository_key raw) before) names
    → IsKeyed (raw ∷ rest) before names
IsKeyed-cons raw rest before names later name = (
  λ there. elim ((later name).0 there) [
    | inl there_before ↦ elim ((inserted name (repository_key raw) before).0 there_before) [
      | inl same ↦ inr (inl same)
      | inr old ↦ inl old
    ]
    | inr keyed ↦ inr (inr keyed)
  ],
  elim [
    | inl old ↦ (later name).1 (inl ((inserted name (repository_key raw) before).1 (inr old)))
    | inr keyed ↦ elim keyed [
      | inl same ↦ (later name).1 (inl ((inserted name (repository_key raw) before).1 (inl same)))
      | inr further ↦ (later name).1 (inr further)
    ]
  ],
)

accepted_names : (a b : List Text) → ◌≡◌ {A = Checked (List Text)} (accepted a) (accepted b) → a ≡ b
accepted_names a b e = cc

pub allow_repositories-IsKeyed :
    (raw allowed names : List Text)
    → allow_repositories raw allowed ≡ accepted names
    → IsKeyed raw allowed names
unfolding allow_repositories
allow_repositories-IsKeyed [] allowed names e =
    IsKeyed-nil allowed names (accepted_names allowed names e)
allow_repositories-IsKeyed (raw ∷ rest) allowed names e =
    elim (Bool-cases (valid_repository (repository_key raw))) [
      | inl v ↦
          IsKeyed-cons raw rest allowed names (
            allow_repositories-IsKeyed rest (insert (repository_key raw) allowed) names (rw v at e))
      | inr v ↦ let e' = rw v at e in cc
    ]

pub allow_public-IsKeyed :
    (allowed raw public names : List Text)
    → allow_public allowed raw public ≡ accepted names
    → IsKeyed raw public names
unfolding allow_public
allow_public-IsKeyed allowed [] public names e =
    IsKeyed-nil public names (accepted_names public names e)
allow_public-IsKeyed allowed (raw ∷ rest) public names e =
    elim (Bool-cases (mem (repository_key raw) allowed)) [
      | inl v ↦
          IsKeyed-cons raw rest public names (
            allow_public-IsKeyed allowed rest (insert (repository_key raw) public) names
              (rw v at e))
      | inr v ↦ let e' = rw v at e in cc
    ]

-- The names of a list that was empty at first.
abbrev pub Names : List Text → List Text → Type 0
Names raw names = (name : Text) → (mem name names ≡ true) ↔ Keyed name raw

pub Names-new : (raw names : List Text) → IsKeyed raw [] names → Names raw names
unfolding mem
Names-new raw names keyed name = (
  λ there. elim ((keyed name).0 there) [ inl never ↦ cc | inr key ↦ key ],
  λ key. (keyed name).1 (inr key),
)
