-- ===== src/Base/Decimal.antt =====
-- Decimal numerals: `${n}` for a non-negative integer `n`, and `BigInt(digits)`.
use Prim.Native.Nat.{ℕ, zero, suc, ◌+◌, ◌*◌, ◌/◌, ◌%◌, ◌-◌}
use mathlib.Core.List.{[], ◌∷◌, ◌++◌}
use v.Base.Tests.{ltb, if◌then◌else◌}
use v.Base.Text.{Text}

-- The code unit of a digit.
abbrev pub digit : ℕ → ℕ
digit d = b'0' + d

-- The numeral of `n`, given more rounds than it has digits.
unfoldable pub decimal_fuel : ℕ → ℕ → Text
decimal_fuel zero n = []
decimal_fuel (suc f) n =
    let front = decimal_fuel f (n / 10) in
    if ltb n 10 then digit n ∷ [] else front ++ digit (n % 10) ∷ []

unfoldable pub decimal : ℕ → Text
unfolding decimal_fuel
decimal n = decimal_fuel (suc n) n

-- Reads digits from the left: `acc * 10 + d`.
unfoldable pub read_digits : ℕ → Text → ℕ
read_digits acc [] = acc
read_digits acc (c ∷ cs) = read_digits (acc * 10 + (c - b'0')) cs
