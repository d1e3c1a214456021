-- ===== src/Base/Decimal.antt =====
-- strconv.Itoa and %d of numbers that are not negative.
use Prim.Native.Nat.{ℕ, zero, suc, ◌+◌, ◌-◌, ◌*◌, ◌<◌, ◌/◌, ◌%◌}
use mathlib.Core.Path.{◌≡◌, ap, ◌∙◌}
use mathlib.Core.Logic.{inl, inr}
use mathlib.Core.List.{[], ◌∷◌}
use native.Mathlib.Omega.{arith}
use kiam.Base.Tests.{ltb, if◌then◌else◌, Bool-cases}
use kiam.Base.Text.{Text}

-- The digits of a number in front of a text; the number itself is fuel enough.
digits : ℕ → ℕ → Text → Text
digits zero n end = end
digits (suc fuel) n end =
    let rest = digits fuel (n / 10) ((b'0' + n % 10) ∷ end) in
    if ltb n 10 then (b'0' + n) ∷ end else rest

pub decimal : ℕ → Text
unfolding digits
decimal n = digits (suc n) n []

-- The number that digits stand for, after digits of a value.
value_from : ℕ → Text → ℕ
value_from value [] = value
value_from value (c ∷ s) = value_from (value * 10 + (c - b'0')) s

value_from-digits :
    (fuel n : ℕ) (end : Text) → n < fuel → value_from 0 (digits fuel n end) ≡ value_from n end
unfolding digits value_from
value_from-digits zero n end h = elim h [ ]
value_from-digits (suc fuel) n end h = elim (Bool-cases (ltb n 10)) [
  | inl small ↦ rw small (ap (λ v. value_from v end) (omega arith))
  | inr large ↦ rw large (
      value_from-digits fuel (n / 10) ((b'0' + n % 10) ∷ end) (ground arith)
      ∙ ap (λ v. value_from v end) (omega arith))
]

-- The digits of a number stand for the number.
value_from-decimal : (n : ℕ) → value_from 0 (decimal n) ≡ n
unfolding decimal value_from
value_from-decimal n = value_from-digits (suc n) n [] (omega arith)
