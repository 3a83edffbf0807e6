-- ===== src/Base/Numerals.antt =====
-- A numeral is digits without a leading zero, and reads back as its number.
use Prim.Native.Nat.{ℕ, zero, suc, ◌+◌, ◌*◌, ◌/◌, ◌%◌, ◌-◌, ◌<◌, ◌≤◌}
use mathlib.Core.Path.{◌≡◌, refl}
use mathlib.Core.Logic.{◌≢◌, inl, inr}
use mathlib.Core.Bool.{Bool, true, false}
use mathlib.Core.List.{[], ◌∷◌, ◌++◌}
use native.Mathlib.Omega.{arith}
use v.Base.Tests.{ltb, ltb→lt, Bool-cases}
use v.Base.Text.{Text}
use v.Base.Decimal.{digit, decimal_fuel, decimal, read_digits}
use v.Base.Strings.{all_units, is_digit}

pub all_units-append :
    (p : ℕ → Bool) (s t : Text)
    → all_units p s ≡ true
    → all_units p t ≡ true
    → all_units p (s ++ t) ≡ true
unfolding all_units
all_units-append p [] t h g = g
all_units-append p (c ∷ s) t h g = elim (Bool-cases (p c)) [
  | inl ok ↦ rw ok (all_units-append p s t (rw ok at h) g)
  | inr bad ↦ absurd (cc (rw bad at h))
]

pub read_digits-append :
    (acc : ℕ) (s : Text) (c : ℕ)
    → read_digits acc (s ++ c ∷ []) ≡ read_digits acc s * 10 + (c - b'0')
unfolding read_digits
read_digits-append acc [] c = refl
read_digits-append acc (x ∷ s) c = read_digits-append (acc * 10 + (x - b'0')) s c

ge_of_ltb : (a b : ℕ) → ltb a b ≡ false → b ≤ a
ge_of_ltb a b h = ground arith

digit-is_digit : (d : ℕ) → d < 10 → is_digit (digit d) ≡ true
digit-is_digit d below = ground arith

read_digits-fuel : (f n : ℕ) → n ≤ f → read_digits 0 (decimal_fuel (suc f) n) ≡ n
unfolding decimal_fuel read_digits
read_digits-fuel zero n h = elim (Bool-cases (ltb n 10)) [
  | inl small ↦ rw small (omega arith)
  | inr large ↦ absurd (omega (arith, h, ge_of_ltb n 10 large))
]
read_digits-fuel (suc f) n h = elim (Bool-cases (ltb n 10)) [
  | inl small ↦ rw small (omega arith)
  | inr large ↦ rw large (
      omega (
        arith,
        ge_of_ltb n 10 large,
        read_digits-append 0 (decimal_fuel (suc f) (n / 10)) (digit (n % 10)),
        read_digits-fuel f (n / 10) (omega (arith, h, ge_of_ltb n 10 large)),
      ))
]

-- The numeral of a number reads as that number.
pub read_digits-decimal : (n : ℕ) → read_digits 0 (decimal n) ≡ n
unfolding decimal
read_digits-decimal n = read_digits-fuel n n (omega arith)

pub decimal-is_digit : (f n : ℕ) → all_units is_digit (decimal_fuel f n) ≡ true
unfolding decimal_fuel all_units
decimal-is_digit zero n = refl
decimal-is_digit (suc f) n = elim (Bool-cases (ltb n 10)) [
  | inl small ↦ rw small (rw (digit-is_digit n (ltb→lt n 10 small)) refl)
  | inr large ↦ rw large (
      all_units-append is_digit (decimal_fuel f (n / 10)) (digit (n % 10) ∷ [])
        (decimal-is_digit f (n / 10)) (rw (digit-is_digit (n % 10) (omega arith)) refl))
]

-- A first digit that is no zero.
abbrev pub StartsPositive : Text → Type 0
StartsPositive [] = ⊥
StartsPositive (c ∷ s) = c ≢ b'0'

StartsPositive-append : (s t : Text) → StartsPositive s → StartsPositive (s ++ t)
StartsPositive-append [] t h = absurd h
StartsPositive-append (c ∷ s) t h = h

pub decimal-StartsPositive : (f n : ℕ) → n ≤ f → 0 < n → StartsPositive (decimal_fuel (suc f) n)
unfolding decimal_fuel
decimal-StartsPositive zero n h positive = absurd (omega (arith, h, positive))
decimal-StartsPositive (suc f) n h positive = elim (Bool-cases (ltb n 10)) [
  | inl small ↦ rw small (omega (arith, positive))
  | inr large ↦ rw large (
      StartsPositive-append (decimal_fuel (suc f) (n / 10)) (digit (n % 10) ∷ []) (
        decimal-StartsPositive f (n / 10) (omega (arith, h, ge_of_ltb n 10 large))
          (omega (arith, ge_of_ltb n 10 large))))
]
