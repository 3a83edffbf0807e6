-- ===== src/Protocol/Amount.antt =====
-- Amounts and the encoding of signatures: packages/protocol/src/amount.ts and signature.ts. A
-- regular expression is the test that it makes, on the code units.
use v.Base.{
  ℕ, zero, suc, ◌+◌, ◌*◌, ◌/◌, ◌%◌, ◌-◌, Bool, false, not, ◌&&◌, ◌||◌, Option, none, some, [], ◌∷◌,
  ◌++◌, if◌then◌else◌, ◌==◌, leb,
}
use v.Base.Int.{ℤ, pos, negsuc}
use v.Base.Text.{Text}
use v.Base.Lists.{length}
use v.Base.Decimal.{decimal, read_digits}
use v.Base.Strings.{cut, all_units, some_units, is_digit, is_alnum}
use v.Protocol.Types.{V402ProtocolErrorCode, Checked, valid, invalid}

abbrev pub amount_decimals : ℕ
amount_decimals = 8

abbrev pub sats_per_coin : ℕ
sats_per_coin = 100000000

-- `(?:0|[1-9]\d*)`
abbrev pub is_plain_integer : Text → Bool
is_plain_integer [] = false
is_plain_integer (a ∷ []) = is_digit a
is_plain_integer (a ∷ b ∷ s) = is_digit a && not (a == b'0') && all_units is_digit (b ∷ s)

-- `\d{1,8}`
abbrev pub is_fraction : Text → Bool
is_fraction s = some_units is_digit s && leb (length s) 8

-- `value.split(".")` of a value with one dot at most: the whole part, and the fraction or "".
abbrev pub whole_and_fraction : Option (Text × Text) → Text → Text × Text
whole_and_fraction none value = (value, [])
whole_and_fraction (some parts) value = parts

unfoldable pub is_valid_human_amount : Text → Bool
unfolding cut all_units
is_valid_human_amount value = elim (cut (b'.' ∷ []) value) [
  | none ↦ is_plain_integer value
  | some (whole, fraction) ↦ is_plain_integer whole && is_fraction fraction
]

-- `fraction.padEnd(n, "0")`
unfoldable pub pad_end : ℕ → Text → Text
pad_end zero s = s
pad_end (suc n) [] = b'0' ∷ pad_end n []
pad_end (suc n) (a ∷ s) = a ∷ pad_end n s

-- `BigInt(whole) * SATS_PER_COIN + BigInt(fractionPadded)`
unfoldable pub sats_of : Text × Text → ℕ
unfolding pad_end read_digits
sats_of (whole, fraction) =
    read_digits 0 whole * sats_per_coin + read_digits 0 (pad_end amount_decimals fraction)

unfoldable pub human_to_sats : Text → Checked ℕ
unfolding is_valid_human_amount sats_of cut
human_to_sats value =
    if is_valid_human_amount value
    then valid (sats_of (whole_and_fraction (cut (b'.' ∷ []) value) value))
    else invalid V402ProtocolErrorCode.invalid_amount

unfoldable pub zeros : ℕ → Text
zeros zero = []
zeros (suc n) = b'0' ∷ zeros n

-- `text.padStart(n, "0")`
unfoldable pub pad_start : ℕ → Text → Text
unfolding zeros
pad_start n s = zeros (n - length s) ++ s

-- `replace(/0+$/, "")`
unfoldable pub trim_zeros : Text → Text
trim_zeros [] = []
trim_zeros (a ∷ s) =
    let rest = trim_zeros s in
    elim rest [ [] ↦ if a == b'0' then [] else a ∷ [] | b ∷ t ↦ a ∷ b ∷ t ]

abbrev pub unsigned_human : ℕ → Text
unsigned_human sats =
    let fraction = sats % sats_per_coin in
    let whole = decimal (sats / sats_per_coin) in
    if fraction == 0
    then whole
    else whole ++ b'.' ∷ trim_zeros (pad_start amount_decimals (decimal fraction))

unfoldable pub sats_to_human : ℤ → Text
unfolding pad_start trim_zeros decimal
sats_to_human (pos n) = unsigned_human n
sats_to_human (negsuc n) = b'-' ∷ unsigned_human (suc n)

abbrev pub is_base64_unit : ℕ → Bool
is_base64_unit c = is_alnum c || c == b'+' || c == b'/'

-- The last four units: four of the alphabet, three and a `=`, or two and `==`.
abbrev pub ends_base64 : ℕ → ℕ → ℕ → ℕ → Bool
ends_base64 a b c d =
    is_base64_unit a
    && is_base64_unit b
    && ((is_base64_unit c && (is_base64_unit d || d == b'=')) || (c == b'=' && d == b'='))

unfoldable pub is_base64_signature : Text → Bool
is_base64_signature (a ∷ b ∷ c ∷ d ∷ []) = ends_base64 a b c d
is_base64_signature (a ∷ b ∷ c ∷ d ∷ e ∷ s) =
    is_base64_unit a
    && is_base64_unit b
    && is_base64_unit c
    && is_base64_unit d
    && is_base64_signature (e ∷ s)
is_base64_signature _ = false
