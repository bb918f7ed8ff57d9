-- ===== src/Prelude/Parse.antt =====
-- `strconv.ParseInt(_, 10, 64)` and `strconv.Atoi` on a 64-bit machine, and the round trip with
-- `strconv.Itoa`.
use Prim.Native.Nat.{ℕ, zero, suc, ◌+◌, ◌/◌, ◌<◌, ◌^◌}
use mathlib.Core.Path.{◌≡◌, refl, ap, ◌∙◌}
use mathlib.Core.Logic.{inl, inr, ◌≢◌}
use mathlib.Core.Bool.{Bool, true, ◌&&◌, not}
use mathlib.Core.Option.{Option, none, some}
use mathlib.Core.List.{[], ◌∷◌}
use native.Mathlib.Omega.{arith}
use github_runners_infra.Prelude.Tests.{ltb, leb, ◌==◌, if◌then◌else◌, Bool-cases}
use github_runners_infra.Prelude.Strings.{Text, is_empty}
use github_runners_infra.Prelude.Integers.{ℤ, pos, negsuc}
use github_runners_infra.Prelude.Decimal.{itoa, digits_before, parse_from, parse_from-digits}

all_digits : Text → Bool
all_digits [] = true
all_digits (c ∷ s) = leb b'0' c && leb c b'9' && all_digits s

abbrev minus : ℕ → ℤ
minus zero = pos zero
minus (suc n) = negsuc n

-- The digits after a sign, and the bound of their value.
parse_digits : (ℕ → ℤ) → ℕ → Text → Option ℤ
unfolding all_digits parse_from
parse_digits sign bound s =
    if not (is_empty s) && all_digits s && ltb (parse_from 0 s) bound
    then some (sign (parse_from 0 s))
    else none

-- An error is `none`.
unfoldable pub parse_int : Text → Option ℤ
unfolding parse_digits
parse_int [] = none
parse_int (c ∷ s) =
    if c == b'-'
    then parse_digits minus (2 ^ 63 + 1) s
    else if c == b'+'
    then parse_digits pos (2 ^ 63) s
    else parse_digits pos (2 ^ 63) (c ∷ s)

-- The number of a text, if that is positive.
abbrev pub positive : Option ℤ → Option ℕ
positive none = none
positive (some (pos zero)) = none
positive (some (pos (suc n))) = some (suc n)
positive (some (negsuc _)) = none

digits_before-all_digits :
    (fuel n : ℕ) (tail : Text)
    → all_digits tail ≡ true
    → all_digits (digits_before fuel n tail) ≡ true
unfolding digits_before all_digits
digits_before-all_digits zero n tail h = h
digits_before-all_digits (suc fuel) n tail h = elim (Bool-cases (ltb n 10)) [
  | inl small ↦ rw small (ground arith)
  | inr large ↦ rw large (digits_before-all_digits fuel (n / 10) _ (ground arith))
]

-- The first digit is not a sign.
Starts : Text → Type 0
Starts [] = ⊥
Starts (c ∷ s) = (c ≢ b'-') × (c ≢ b'+')

digits_before-Starts : (fuel n : ℕ) (tail : Text) → n < fuel → Starts (digits_before fuel n tail)
unfolding digits_before Starts
digits_before-Starts zero n tail h = elim h [ ]
digits_before-Starts (suc fuel) n tail h = elim (Bool-cases (ltb n 10)) [
  | inl small ↦ rw small (omega arith)
  | inr large ↦ rw large (digits_before-Starts fuel (n / 10) _ (ground arith))
]

parse_unsigned :
    (s : Text)
    → Starts s
    → all_digits s ≡ true
    → parse_from 0 s < 2 ^ 63
    → parse_int s ≡ some (pos (parse_from 0 s))
unfolding parse_int Starts
parse_unsigned [] h d b = elim h [ ]
parse_unsigned (c ∷ s) h d b = ground arith

-- A number that is printed is read back.
pub parse_int-itoa : (n : ℕ) → n < 2 ^ 63 → parse_int (itoa n) ≡ some (pos n)
unfolding itoa parse_from
parse_int-itoa n h =
    let back : parse_from 0 (digits_before (suc n) n []) ≡ n =
      parse_from-digits (suc n) n [] (omega arith) in
    parse_unsigned (digits_before (suc n) n []) (digits_before-Starts (suc n) n [] (omega arith))
      (digits_before-all_digits (suc n) n [] (unfold all_digits in refl)) (rw back h)
    ∙ ap (λ k. some (pos k)) back
