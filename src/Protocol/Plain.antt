-- ===== src/Protocol/Plain.antt =====
-- Numerals in the forms that packages/protocol/src/amount.ts and schemas.ts accept.
use v.Base.{ℕ, zero, suc, ◌≡◌, refl, true, false, none, some, [], ◌∷◌, ◌++◌, arith, ◌==◌, ==_iff}
use v.Base.Text.{Text}
use v.Base.Decimal.{decimal, decimal_fuel}
use v.Base.Numerals.{StartsPositive, decimal-is_digit, decimal-StartsPositive}
use v.Base.Strings.{all_units, is_digit, cut, starts_with}
use v.Protocol.Amount.{is_plain_integer}

digits-is_plain_integer :
    (s : Text) → all_units is_digit s ≡ true → StartsPositive s → is_plain_integer s ≡ true
unfolding all_units
digits-is_plain_integer [] digits positive = absurd positive
digits-is_plain_integer (a ∷ []) digits positive = ground arith
digits-is_plain_integer (a ∷ b ∷ s) digits positive =
    let other : (a == b'0') ≡ false = ground arith in rw other (ground arith)

-- The numeral of a number is a plain integer: digits without a leading zero.
pub decimal-is_plain_integer : (n : ℕ) → is_plain_integer (decimal n) ≡ true
unfolding decimal decimal_fuel
decimal-is_plain_integer zero = refl
decimal-is_plain_integer (suc n) =
    digits-is_plain_integer (decimal_fuel (suc (suc n)) (suc n))
      (decimal-is_digit (suc (suc n)) (suc n))
      (decimal-StartsPositive (suc n) (suc n) (omega arith) (omega arith))

-- A separator that is no digit is not found in digits, and is found behind them.
pub cut-digits :
    (c : ℕ) (s : Text) → is_digit c ≡ false → all_units is_digit s ≡ true → cut (c ∷ []) s ≡ none
unfolding cut all_units starts_with
cut-digits c [] h digits = refl
cut-digits c (a ∷ s) h digits =
    let apart : (c == a) ≡ false = ground arith in
    let later : all_units is_digit s ≡ true = ground arith in
    rw (apart) (rw (cut-digits c s h later) refl)

pub cut-after_digits :
    (c : ℕ) (s t : Text)
    → is_digit c ≡ false
    → all_units is_digit s ≡ true
    → cut (c ∷ []) (s ++ c ∷ t) ≡ some (s, t)
unfolding cut all_units starts_with
cut-after_digits c [] t h digits = rw ((==_iff c c).1 refl) refl
cut-after_digits c (a ∷ s) t h digits =
    let apart : (c == a) ≡ false = ground arith in
    let later : all_units is_digit s ≡ true = ground arith in
    rw (apart) (rw (cut-after_digits c s t h later) refl)
