-- ===== src/Store/Identity/Keys.antt =====
-- internal/state/store.go, `runnerIdentityKey`: whether two runners can share a key.
use github_runners_infra.Prelude.{
  ℕ, Text, [], ◌∷◌, ◌++◌, to_lower, itoa, itoa-injective, ◌≡◌, ◌≢◌, ◌⊎◌, inl, inr, ap, sym, ◌∙◌,
  refl, arith, lower_byte, Lacks, split_at,
}
use github_runners_infra.Store.Identity.{runner_identity_key}

lower_byte-Lacks : (c x : ℕ) → (c ≡ b'/') ⊎ (c ≡ b'#') → x ≢ c → lower_byte x ≢ c
unfolding lower_byte
lower_byte-Lacks c x sep h e = ground arith

to_lower-Lacks : (c : ℕ) (s : Text) → (c ≡ b'/') ⊎ (c ≡ b'#') → Lacks c s → Lacks c (to_lower s)
unfolding to_lower
to_lower-Lacks c [] sep h = tt
to_lower-Lacks c (x ∷ s) sep h = (lower_byte-Lacks c x sep h.0, to_lower-Lacks c s sep h.1)

to_lower-append : (s t : Text) → to_lower (s ++ t) ≡ to_lower s ++ to_lower t
unfolding to_lower
to_lower-append [] t = refl
to_lower-append (x ∷ s) t = ap (λ u. lower_byte x ∷ u) (to_lower-append s t)

Lacks-append : (c : ℕ) (s t : Text) → Lacks c s → Lacks c t → Lacks c (s ++ t)
Lacks-append c [] t h h' = h'
Lacks-append c (x ∷ s) t h h' = (h.0, Lacks-append c s t h.1 h')

-- A GitHub owner and the name of a repository: without the two separators.
pub record IsRepository (owner repository : Text) : Type 0 where
  pub owner_slash : Lacks b'/' owner
  pub owner_hash : Lacks b'#' owner
  pub repository_hash : Lacks b'#' repository

to_lower-slash :
    (owner repository : Text)
    → to_lower (owner ++ (b'/' ∷ repository)) ≡ to_lower owner ++ (b'/' ∷ to_lower repository)
unfolding to_lower lower_byte
to_lower-slash owner repository = to_lower-append owner (b'/' ∷ repository)

-- The part before the number lacks its separator.
head-Lacks :
    (owner repository : Text)
    → IsRepository owner repository
    → Lacks b'#' (to_lower owner ++ (b'/' ∷ to_lower repository))
head-Lacks owner repository n =
    Lacks-append b'#' (to_lower owner) (b'/' ∷ to_lower repository)
      (to_lower-Lacks b'#' owner (inr refl) n.owner_hash)
      (omega arith, to_lower-Lacks b'#' repository (inr refl) n.repository_hash)

-- Runners with one key have, up to the case of letters, one owner and one repository, and one
-- number, where owners have no `/` and neither name has a `#`.
pub runner_identity_key-injective :
    (owner owner' repository repository' : Text) (id id' : ℕ)
    → IsRepository owner repository
    → IsRepository owner' repository'
    → runner_identity_key owner repository id ≡ runner_identity_key owner' repository' id'
    → (to_lower owner ≡ to_lower owner') × (to_lower repository ≡ to_lower repository') × (id ≡ id')
unfolding runner_identity_key
runner_identity_key-injective owner owner' repository repository' id id' n n' e =
    let (names, ids) =
      split_at b'#' (to_lower owner ++ (b'/' ∷ to_lower repository))
        (to_lower owner' ++ (b'/' ∷ to_lower repository')) (itoa id) (itoa id')
        (head-Lacks owner repository n) (head-Lacks owner' repository' n')
        (ap (λ t. t ++ (b'#' ∷ itoa id)) (sym (to_lower-slash owner repository))
          ∙ e
          ∙ ap (λ t. t ++ (b'#' ∷ itoa id')) (to_lower-slash owner' repository')) in
    let (owners, repositories) =
      split_at b'/' (to_lower owner) (to_lower owner') (to_lower repository) (to_lower repository')
        (to_lower-Lacks b'/' owner (inl refl) n.owner_slash)
        (to_lower-Lacks b'/' owner' (inl refl) n'.owner_slash) names in
    (owners, repositories, itoa-injective id id' ids)
