-- ===== src/Prelude/Strings.antt =====
-- Go strings as lists of bytes, and what the program uses of the package `strings`. Case is folded
-- over ASCII, the alphabet of owners, repositories and labels.
use Prim.Native.Nat.{ℕ, ◌+◌}
use Prim.Native.Char.{code}
use Prim.Native.String.{String}
use mathlib.Core.Path.{◌≡◌, refl}
use mathlib.Core.Logic.{◌↔◌, ◌≢◌}
use mathlib.Core.Bool.{Bool, true, false, ◌&&◌, ◌||◌}
use mathlib.Core.List.{List, [], ◌∷◌, ◌++◌, map}
use native.Mathlib.Omega.{arith}
use github_runners_infra.Prelude.Tests.{leb, ltb, ◌==◌, if◌then◌else◌}

abbrev pub Text : Type 0
Text = List ℕ

-- The bytes of an ASCII literal.
unfoldable pub codes : String → Text
codes String.[] = []
codes (String.◌∷◌ c s) = code c ∷ codes s

-- `==` on strings.
unfoldable pub text_eq : Text → Text → Bool
text_eq [] [] = true
text_eq [] (b ∷ t) = false
text_eq (a ∷ s) [] = false
text_eq (a ∷ s) (b ∷ t) = a == b && text_eq s t

pub text_eq_refl : (s : Text) → text_eq s s ≡ true
unfolding text_eq
text_eq_refl [] = refl
text_eq_refl (a ∷ s) = ground (arith, text_eq_refl s)

text_eq→eq : (s t : Text) → text_eq s t ≡ true → s ≡ t
unfolding text_eq
text_eq→eq [] [] h = refl
text_eq→eq [] (b ∷ t) h = cc
text_eq→eq (a ∷ s) [] h = cc
text_eq→eq (a ∷ s) (b ∷ t) h = ground (arith, text_eq→eq s t)

pub text_eq_iff : (s t : Text) → (text_eq s t ≡ true) ↔ (s ≡ t)
text_eq_iff s t = (text_eq→eq s t, λ e. rw e (text_eq_refl t))

-- `s == ""`
abbrev pub is_empty : Text → Bool
is_empty [] = true
is_empty (_ ∷ _) = false

unfoldable pub lower_byte : ℕ → ℕ
lower_byte c = if leb b'A' c && leb c b'Z' then c + 32 else c

-- `strings.ToLower`
unfoldable pub to_lower : Text → Text
unfolding lower_byte
to_lower s = map lower_byte s

-- `strings.EqualFold`
unfoldable pub equal_fold : Text → Text → Bool
unfolding to_lower
equal_fold s t = text_eq (to_lower s) (to_lower t)

-- The order of `sort.Strings`: byte by byte, a prefix first.
unfoldable pub text_le : Text → Text → Bool
text_le [] t = true
text_le (a ∷ s) [] = false
text_le (a ∷ s) (b ∷ t) = ltb a b || (a == b && text_le s t)

-- The byte does not occur in the text.
abbrev pub Lacks : ℕ → Text → Type 0
Lacks c [] = Unit
Lacks c (x ∷ s) = (x ≢ c) × Lacks c s

-- A separator that occurs in neither head splits both texts alike.
pub split_at :
    (c : ℕ) (s s' t t' : Text)
    → Lacks c s
    → Lacks c s'
    → s ++ (c ∷ t) ≡ s' ++ (c ∷ t')
    → (s ≡ s') × (t ≡ t')
split_at c [] [] t t' h h' e = (refl, cc)
split_at c [] (x ∷ s') t t' h h' e = absurd (h'.0 (cc))
split_at c (x ∷ s) [] t t' h h' e = absurd (h.0 (cc))
split_at c (x ∷ s) (x' ∷ s') t t' h h' e =
    let (p, q) = split_at c s s' t t' h.1 h'.1 (cc) in (cc, q)
