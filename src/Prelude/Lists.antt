-- ===== src/Prelude/Lists.antt =====
-- Lists measured by native numbers, and insertion sort by a Boolean order.
use Prim.Native.Nat.{ℕ, suc, ◌+◌}
use mathlib.Core.Path.{◌≡◌}
use mathlib.Core.Bool.{Bool, false, ◌||◌}
use mathlib.Core.List.{List, [], ◌∷◌, ◌++◌}
use native.Mathlib.Omega.{arith}
use github_runners_infra.Prelude.Strings.{Text, text_eq}

module _ {ℓ} {A : Type ℓ} where
  abbrev pub length : List A → ℕ
  length [] = 0
  length (x ∷ xs) = suc (length xs)

  pub length-append : (xs ys : List A) → length (xs ++ ys) ≡ length xs + length ys
  length-append [] ys = omega arith
  length-append (x ∷ xs) ys = omega (arith, length-append xs ys)

-- Membership in a set of strings.
unfoldable pub mem : Text → List Text → Bool
mem k [] = false
mem k (j ∷ js) = text_eq j k || mem k js
