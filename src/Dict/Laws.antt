-- ===== src/Dict/Laws.antt =====
-- What `get` reads after `put` and `delete`.
use github_runners_infra.Prelude.{
  false, none, some, [], ◌∷◌, Text, text_eq, text_eq_iff, if◌then◌else◌, ◌≡◌, refl, arith,
  text_eq_refl, sym, ◌∙◌,
}
use github_runners_infra.Dict.{Dict, get, put, delete, HasUniqueKeys, SameMap}

module _ {ℓ} {V : Type ℓ} where
  pub get-put :
      (k j : Text) (v : V) (d : Dict V)
      → get j (put k v d) ≡ (if text_eq k j then some v else get j d)
  unfolding get put
  get-put k j v [] = refl
  get-put k j v ((i, w) ∷ d) =
      ground (arith, text_eq_iff k j, text_eq_iff i k, text_eq_iff i j, get-put k j v d)

  pub get-delete :
      (k j : Text) (d : Dict V) → get j (delete k d) ≡ (if text_eq k j then none else get j d)
  unfolding get delete
  get-delete k j [] = ground arith
  get-delete k j ((i, w) ∷ d) =
      ground (arith, text_eq_iff k j, text_eq_iff i k, text_eq_iff i j, get-delete k j d)

  pub get-put_self : (k : Text) (v : V) (d : Dict V) → get k (put k v d) ≡ some v
  get-put_self k v d = rw (get-put, text_eq_refl)

  pub get-put_ne :
      (k j : Text) (v : V) (d : Dict V) → text_eq k j ≡ false → get j (put k v d) ≡ get j d
  get-put_ne k j v d h = rw (get-put, h)

  pub SameMap-refl : (d : Dict V) → SameMap d d
  SameMap-refl d = record { at = λ k. refl }

  pub SameMap-sym : {a b : Dict V} → SameMap a b → SameMap b a
  SameMap-sym h = record { at = λ k. sym (h.at k) }

  pub SameMap-trans : {a b c : Dict V} → SameMap a b → SameMap b c → SameMap a c
  SameMap-trans h g = record { at = λ k. h.at k ∙ g.at k }

  pub SameMap-put :
      (k : Text) (v : V) {a b : Dict V} → SameMap a b → SameMap (put k v a) (put k v b)
  SameMap-put k v {a} {b} h = record {
    at = λ j. ground (arith, get-put k j v a, get-put k j v b, h.at j);
  }

  pub SameMap-delete : (k : Text) {a b : Dict V} → SameMap a b → SameMap (delete k a) (delete k b)
  SameMap-delete k {a} {b} h = record {
    at = λ j. ground (arith, get-delete k j a, get-delete k j b, h.at j);
  }

  -- Writing back what a key held undoes a write.
  pub SameMap-put_back :
      (k : Text) (v w : V) (d : Dict V) → get k d ≡ some v → SameMap (put k v (put k w d)) d
  SameMap-put_back k v w d h = record {
    at = λ j. ground (arith, get-put k j v (put k w d), get-put k j w d, text_eq_iff k j, h);
  }

  -- Deleting a key that was absent undoes a write.
  pub SameMap-delete_back :
      (k : Text) (w : V) (d : Dict V) → get k d ≡ none → SameMap (delete k (put k w d)) d
  SameMap-delete_back k w d h = record {
    at = λ j. ground (arith, get-delete k j (put k w d), get-put k j w d, text_eq_iff k j, h);
  }

  pub HasUniqueKeys-put :
      (k : Text) (v : V) (d : Dict V) → HasUniqueKeys d → HasUniqueKeys (put k v d)
  unfolding put
  HasUniqueKeys-put k v [] h = (unfold get in refl, tt)
  HasUniqueKeys-put k v ((j, w) ∷ d) h =
      ground (arith, text_eq_iff j k, text_eq_iff k j, get-put k j v d, HasUniqueKeys-put k v d h.1)

  pub HasUniqueKeys-delete : (k : Text) (d : Dict V) → HasUniqueKeys d → HasUniqueKeys (delete k d)
  unfolding delete
  HasUniqueKeys-delete k [] h = tt
  HasUniqueKeys-delete k ((j, w) ∷ d) h =
      ground (arith, get-delete k j d, HasUniqueKeys-delete k d h.1)

pub ruleset dict_laws = (get-put, get-delete)
