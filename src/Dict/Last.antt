-- ===== src/Dict/Last.antt =====
-- The last entry of a key, which is the one that counts where the entries are written to another
-- map one after the other.
use github_runners_infra.Prelude.{
  true, false, Option, none, some, [], ◌∷◌, Text, text_eq, text_eq_iff, ◌≡◌, ◌⊎◌, refl, arith,
  if◌then◌else◌,
}
use github_runners_infra.Dict.{Dict, get, put}

-- The later of two values.
abbrev pub later {ℓ} : {A : Type ℓ} → Option A → Option A → Option A
later (some c) o = some c
later none o = o

module _ {ℓ} {V : Type ℓ} where
  unfoldable pub last : Text → Dict V → Option V
  last k [] = none
  last k ((j, v) ∷ d) = later (last k d) (if text_eq j k then some v else none)

  pub last-put-none :
      (k j : Text) (v : V) (d : Dict V)
      → last j (put k v d) ≡ none
      → (last j d ≡ none) × (text_eq k j ≡ false)
  unfolding last put
  last-put-none k j v [] h = ground arith
  last-put-none k j v ((i, u) ∷ d) h =
      ground (arith, text_eq_iff i k, text_eq_iff i j, text_eq_iff k j, last-put-none k j v d)

  -- What is last after a write was last before it or is what was written.
  pub last-put :
      (k j : Text) (v : V) (d : Dict V) {w : V}
      → last j (put k v d) ≡ some w
      → (last j d ≡ some w) ⊎ ((text_eq k j ≡ true) × (w ≡ v))
  unfolding last put
  last-put k j v [] h = ground arith
  last-put k j v ((i, u) ∷ d) {w = w} h = ground (
    arith,
    text_eq_iff i k,
    text_eq_iff i j,
    text_eq_iff k j,
    last-put k j v d {w = w},
    last-put-none k j v d,
  )

  -- A key without a last entry has none.
  pub get-last-none : (j : Text) (d : Dict V) → last j d ≡ none → get j d ≡ none
  unfolding last get
  get-last-none j [] h = refl
  get-last-none j ((i, u) ∷ d) h = ground (arith, get-last-none j d)

  pub last-get-none : (j : Text) (d : Dict V) → get j d ≡ none → last j d ≡ none
  unfolding last get
  last-get-none j [] h = refl
  last-get-none j ((i, u) ∷ d) h = ground (arith, last-get-none j d)
