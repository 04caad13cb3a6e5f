-- ===== src/Prelude/Decimal.antt =====
-- Numbers as decimal text: `std::to_string` of an unsigned number, and the value of digits.
use Prim.Native.Nat.{ℕ, zero, suc, ◌+◌, ◌-◌, ◌*◌, ◌/◌, ◌%◌, ◌<◌}
use mathlib.Core.Path.{◌≡◌, refl, sym, ap, ◌∙◌}
use mathlib.Core.Logic.{inl, inr}
use mathlib.Core.Bool.{true}
use mathlib.Core.List.{[], ◌∷◌}
use native.Mathlib.Omega.{arith}
use lab_bridge.Prelude.Tests.{ltb, if◌then◌else◌, Bool-cases}
use lab_bridge.Prelude.Texts.{Text, is_digit}
use lab_bridge.Prelude.Lists.{all}

-- The number that decimal digits spell after a prefix worth `n`.
abbrev pub decimal_value : ℕ → Text → ℕ
decimal_value n [] = n
decimal_value n (c ∷ s) = decimal_value (n * 10 + (c - 48)) s

-- The digits of `n` in front of a text; the fuel is to pass `n`.
digits_before : ℕ → ℕ → Text → Text
digits_before zero n s = s
digits_before (suc fuel) n s =
    let rest = digits_before fuel (n / 10) ((48 + n % 10) ∷ s) in
    if ltb n 10 then (48 + n) ∷ s else rest

unfoldable pub to_decimal : ℕ → Text
unfolding digits_before
to_decimal n = digits_before (suc n) n []

-- The value does not depend on the fuel, and the text behind goes on from it.
digits_before-value :
    (fuel n : ℕ) (s : Text)
    → n < fuel
    → decimal_value 0 (digits_before fuel n s) ≡ decimal_value n s
unfolding digits_before
digits_before-value zero n s h = elim h [ ]
digits_before-value (suc fuel) n s h = elim (Bool-cases (ltb n 10)) [
  | inl small ↦ rw small (ap (λ k. decimal_value k s) (omega arith))
  | inr large ↦ rw large (
      digits_before-value fuel (n / 10) ((48 + n % 10) ∷ s) (ground arith)
      ∙ ap (λ k. decimal_value k s) (omega arith))
]

-- A printed number reads as itself.
pub to_decimal-value : (n : ℕ) → decimal_value 0 (to_decimal n) ≡ n
unfolding to_decimal
to_decimal-value n = digits_before-value (suc n) n [] (omega arith)

pub to_decimal_inj : (m n : ℕ) → to_decimal m ≡ to_decimal n → m ≡ n
to_decimal_inj m n h = sym (to_decimal-value m) ∙ ap (decimal_value 0) h ∙ to_decimal-value n

digits_before-digits :
    (fuel n : ℕ) (s : Text) → all is_digit s ≡ true → all is_digit (digits_before fuel n s) ≡ true
unfolding digits_before
digits_before-digits zero n s h = h
digits_before-digits (suc fuel) n s h =
    ground (arith, digits_before-digits fuel (n / 10) ((48 + n % 10) ∷ s))

pub to_decimal-digits : (n : ℕ) → all is_digit (to_decimal n) ≡ true
unfolding to_decimal
to_decimal-digits n = digits_before-digits (suc n) n [] refl
