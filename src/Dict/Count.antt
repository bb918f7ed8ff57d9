-- ===== src/Dict/Count.antt =====
-- What one write does to the number of entries that pass a test.
use github_runners_infra.Prelude.{◌+◌, Bool, some, [], ◌∷◌, Text, ◌≡◌, arith}
use github_runners_infra.Dict.{Dict, get, put, count, weight}

module _ {ℓ} {V : Type ℓ} (p : V → Bool) where
  -- The weight of what the key held goes, and that of the new value comes.
  pub count-put :
      (k : Text) (v : V) (d : Dict V)
      → count p (put k v d) + weight p (get k d) ≡ count p d + weight p (some v)
  unfolding get put count
  count-put k v [] = omega arith
  count-put k v ((j, w) ∷ d) = ground (arith, count-put k v d)

  pub count-put-some :
      (k : Text) (v : V) (d : Dict V) {w : V}
      → get k d ≡ some w
      → count p (put k v d) + weight p (some w) ≡ count p d + weight p (some v)
  count-put-some k v d h = rw h at (count-put k v d)
