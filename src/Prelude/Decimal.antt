-- ===== src/Prelude/Decimal.antt =====
-- `strconv.Itoa` and `strconv.FormatInt(_, 10)` on numbers that are not negative.
use Prim.Native.Nat.{ℕ, zero, suc, ◌+◌, ◌-◌, ◌*◌, ◌/◌, ◌%◌, ◌<◌}
use mathlib.Core.Path.{◌≡◌, sym, ap, ◌∙◌}
use mathlib.Core.Logic.{inl, inr}
use mathlib.Core.List.{[], ◌∷◌}
use native.Mathlib.Omega.{arith}
use github_runners_infra.Prelude.Tests.{ltb, if◌then◌else◌, Bool-cases}
use github_runners_infra.Prelude.Strings.{Text}

-- The digits of `n` before `tail`, most significant first; the fuel counts digits.
unfoldable pub digits_before : ℕ → ℕ → Text → Text
digits_before zero n tail = tail
digits_before (suc fuel) n tail =
    let rest = digits_before fuel (n / 10) ((b'0' + n % 10) ∷ tail) in
    if ltb n 10 then (b'0' + n) ∷ tail else rest

unfoldable pub itoa : ℕ → Text
unfolding digits_before
itoa n = digits_before (suc n) n []

-- Reading digits back, after the value `a` of those read before.
unfoldable pub parse_from : ℕ → Text → ℕ
parse_from a [] = a
parse_from a (c ∷ s) = parse_from (10 * a + (c - b'0')) s

pub parse_from-digits :
    (fuel n : ℕ) (tail : Text)
    → n < fuel
    → parse_from 0 (digits_before fuel n tail) ≡ parse_from n tail
unfolding digits_before parse_from
parse_from-digits zero n tail h = elim h [ ]
parse_from-digits (suc fuel) n tail h = elim (Bool-cases (ltb n 10)) [
  | inl small ↦ rw small (ap (λ a. parse_from a tail) (omega arith))
  | inr large ↦ rw large (
      parse_from-digits fuel (n / 10) ((b'0' + n % 10) ∷ tail) (ground arith)
      ∙ ap (λ a. parse_from a tail) (omega arith))
]

-- The digits determine the number.
pub itoa-injective : (m n : ℕ) → itoa m ≡ itoa n → m ≡ n
unfolding itoa parse_from
itoa-injective m n h =
    sym (parse_from-digits (suc m) m [] (omega arith))
    ∙ ap (parse_from 0) h
    ∙ parse_from-digits (suc n) n [] (omega arith)
