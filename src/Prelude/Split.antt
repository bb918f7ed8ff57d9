-- ===== src/Prelude/Split.antt =====
-- `strings.Split` at a byte and `strings.Join` with one, and that the one undoes the other.
use Prim.Native.Nat.{ℕ}
use mathlib.Core.Path.{◌≡◌, refl, ap}
use mathlib.Core.List.{List, [], ◌∷◌, ◌++◌}
use native.Mathlib.Omega.{arith}
use github_runners_infra.Prelude.Tests.{◌==◌, if◌then◌else◌}
use github_runners_infra.Prelude.Strings.{Text, Lacks}

-- The byte before the first part.
abbrev before_head : ℕ → List Text → List Text
before_head c [] = (c ∷ []) ∷ []
before_head c (s ∷ rest) = (c ∷ s) ∷ rest

unfoldable pub split_text : ℕ → Text → List Text
split_text sep [] = [] ∷ []
split_text sep (c ∷ s) =
    let rest = split_text sep s in if c == sep then [] ∷ rest else before_head c rest

unfoldable pub join_texts : ℕ → List Text → Text
join_texts sep [] = []
join_texts sep (s ∷ []) = s
join_texts sep (s ∷ t ∷ rest) = s ++ (sep ∷ join_texts sep (t ∷ rest))

-- No part has the separator.
abbrev pub AllLack : ℕ → List Text → Type 0
AllLack sep [] = Unit {0}
AllLack sep (s ∷ rest) = Lacks sep s × AllLack sep rest

pub split_text-Lacks : (sep : ℕ) (s : Text) → Lacks sep s → split_text sep s ≡ s ∷ []
unfolding split_text
split_text-Lacks sep [] h = refl
split_text-Lacks sep (c ∷ s) h = ground (arith, split_text-Lacks sep s h.1)

pub split_text-append :
    (sep : ℕ) (s t : Text) → Lacks sep s → split_text sep (s ++ (sep ∷ t)) ≡ s ∷ split_text sep t
unfolding split_text
split_text-append sep [] t h = ground arith
split_text-append sep (c ∷ s) t h = ground (arith, split_text-append sep s t h.1)

-- Parts without the separator are found again.
pub split_text-join_texts :
    (sep : ℕ) (s : Text) (rest : List Text)
    → AllLack sep (s ∷ rest)
    → split_text sep (join_texts sep (s ∷ rest)) ≡ s ∷ rest
unfolding join_texts
split_text-join_texts sep s [] h = split_text-Lacks sep s h.0
split_text-join_texts sep s (t ∷ rest) h =
    rw (split_text-append sep s (join_texts sep (t ∷ rest)) h.0)
      (ap (λ l. s ∷ l) (split_text-join_texts sep t rest h.1))
