-- ===== src/Dict.antt =====
-- Go maps with string keys, as association lists: the operations, and the iteration that `range`
-- makes over the entries. The order of a Go map is unspecified, and no result below depends on it.
pub mod Laws
pub mod Count
pub mod Last
use github_runners_infra.Prelude.{
  ℕ, ◌+◌, Bool, true, false, Option, none, some, List, [], ◌∷◌, Text, text_eq, if◌then◌else◌, ◌≡◌,
}

abbrev pub Dict {ℓ} : Type ℓ → Type ℓ
Dict V = List (Text × V)

module _ {ℓ} {V : Type ℓ} where
  -- v, ok := d[k]
  unfoldable pub get : Text → Dict V → Option V
  get k [] = none
  get k ((j, v) ∷ d) = if text_eq j k then some v else get k d

  -- d[k] = v
  unfoldable pub put : Text → V → Dict V → Dict V
  put k v [] = (k, v) ∷ []
  put k v ((j, w) ∷ d) = if text_eq j k then (k, v) ∷ d else (j, w) ∷ put k v d

  -- delete(d, k)
  unfoldable pub delete : Text → Dict V → Dict V
  delete k [] = []
  delete k ((j, w) ∷ d) = let rest = delete k d in if text_eq j k then rest else (j, w) ∷ rest

  -- The keys, in the order of the iteration.
  unfoldable pub keys : Dict V → List Text
  keys [] = []
  keys ((j, w) ∷ d) = j ∷ keys d

-- A weight of an entry that may be missing.
abbrev pub weight {ℓ} : {V : Type ℓ} → (V → Bool) → Option V → ℕ
weight p none = 0
weight p (some v) = if p v then 1 else 0

-- The number of entries that pass a test.
unfoldable pub count {ℓ} : {V : Type ℓ} → (V → Bool) → Dict V → ℕ
count p [] = 0
count p ((j, v) ∷ d) = weight p (some v) + count p d

-- No key twice.
abbrev pub HasUniqueKeys {ℓ} : {V : Type ℓ} → Dict V → Type ℓ
HasUniqueKeys [] = Unit
HasUniqueKeys ((j, v) ∷ d) = (get j d ≡ none) × HasUniqueKeys d

-- Two maps answer every key alike.
pub record SameMap {ℓ} {V : Type ℓ} (a b : Dict V) : Type ℓ where
  pub at : (k : Text) → get k a ≡ get k b
