-- ===== src/Protocol/RoundTrip.antt =====
-- Amounts to text and back (packages/protocol/src/amount.ts).
use v.Base.{
  ℕ, zero, suc, ◌+◌, ◌*◌, ◌/◌, ◌%◌, ◌-◌, ◌<◌, ◌≤◌, ◌≡◌, ◌≢◌, refl, sym, ap, ◌∙◌, true, false, [],
  ◌∷◌, ◌++◌, arith, inl, inr, ◌==◌, ==_iff, Bool-cases, ltb, if◌then◌else◌,
}
use v.Base.Int.{pos}
use v.Base.Text.{Text}
use v.Base.Lists.{length, length-append}
use v.Base.Decimal.{digit, decimal, decimal_fuel, read_digits}
use v.Base.Numerals.{all_units-append, read_digits-decimal, decimal-is_digit}
use v.Base.Strings.{all_units, is_digit}
use v.Protocol.Types.{valid}
use v.Protocol.Amount.{
  is_fraction, is_valid_human_amount, pad_end, sats_of, human_to_sats, zeros, pad_start, trim_zeros,
  sats_to_human,
}
use v.Protocol.Plain.{decimal-is_plain_integer, cut-digits, cut-after_digits}

decimal-all_digits : (n : ℕ) → all_units is_digit (decimal n) ≡ true
unfolding decimal
decimal-all_digits n = decimal-is_digit (suc n) n

abbrev pow10 : ℕ → ℕ
pow10 zero = 1
pow10 (suc k) = 10 * pow10 k

ge_of_ltb : (a b : ℕ) → ltb a b ≡ false → b ≤ a
ge_of_ltb a b h = ground arith

length-decimal_fuel : (k f n : ℕ) → n < pow10 (suc k) → length (decimal_fuel f n) ≤ suc k
unfolding decimal_fuel
length-decimal_fuel k zero n h = omega arith
length-decimal_fuel zero (suc f) n h = elim (Bool-cases (ltb n 10)) [
  | inl small ↦ rw small (omega arith)
  | inr large ↦ absurd (omega (arith, h, ge_of_ltb n 10 large))
]
length-decimal_fuel (suc k) (suc f) n h = elim (Bool-cases (ltb n 10)) [
  | inl small ↦ rw small (omega arith)
  | inr large ↦ rw large (
      omega (
        arith,
        length-append (decimal_fuel f (n / 10)) (digit (n % 10) ∷ []),
        length-decimal_fuel k f (n / 10) (omega (arith, h)),
      ))
]

-- Zeros in front change no number, and make up a length.
read_digits-zeros : (k : ℕ) (s : Text) → read_digits 0 (zeros k ++ s) ≡ read_digits 0 s
unfolding zeros read_digits
read_digits-zeros zero s = refl
read_digits-zeros (suc k) s = read_digits-zeros k s

length-zeros : (k : ℕ) → length (zeros k) ≡ k
unfolding zeros
length-zeros zero = refl
length-zeros (suc k) = ap suc (length-zeros k)

all_digits-zeros : (k : ℕ) → all_units is_digit (zeros k) ≡ true
unfolding zeros all_units
all_digits-zeros zero = refl
all_digits-zeros (suc k) = all_digits-zeros k

length-pad_start : (k : ℕ) (s : Text) → length s ≤ k → length (pad_start k s) ≡ k
unfolding pad_start
length-pad_start k s h =
    omega (arith, h, length-append (zeros (k - length s)) s, length-zeros (k - length s))

-- Padding gives back the zeros that were trimmed.
pad_end-trim_zeros : (s : Text) → pad_end (length s) (trim_zeros s) ≡ s
unfolding pad_end trim_zeros
pad_end-trim_zeros [] = refl
pad_end-trim_zeros (a ∷ s) = go (trim_zeros s) (pad_end-trim_zeros s)
  where
    go :
        (rest : Text)
        → pad_end (length s) rest ≡ s
        → pad_end
            (suc (length s))
            (elim rest [ [] ↦ if a == b'0' then [] else a ∷ [] | b ∷ t ↦ a ∷ b ∷ t ])
          ≡ a ∷ s
    go [] e = elim (Bool-cases (a == b'0')) [
      | inl same ↦ rw same (rw ((==_iff a b'0').0 same) (ap (λ t. b'0' ∷ t) e))
      | inr other ↦ rw other (ap (λ t. a ∷ t) e)
    ]
    go (b ∷ t) e = ap (λ u. a ∷ u) e

trim_zeros-length : (s : Text) → length (trim_zeros s) ≤ length s
unfolding trim_zeros
trim_zeros-length [] = omega arith
trim_zeros-length (a ∷ s) = go (trim_zeros s) (trim_zeros-length s)
  where
    go :
        (rest : Text)
        → length rest ≤ length s
        → length (elim rest [ [] ↦ if a == b'0' then [] else a ∷ [] | b ∷ t ↦ a ∷ b ∷ t ])
          ≤ suc (length s)
    go [] h = ground arith
    go (b ∷ t) h = omega (arith, h)

trim_zeros-digits :
    (s : Text) → all_units is_digit s ≡ true → all_units is_digit (trim_zeros s) ≡ true
unfolding trim_zeros all_units
trim_zeros-digits [] h = refl
trim_zeros-digits (a ∷ s) h = go (trim_zeros s) (trim_zeros-digits s (ground arith)) (ground arith)
  where
    go :
        (rest : Text)
        → all_units is_digit rest ≡ true
        → is_digit a ≡ true
        → all_units is_digit
            (elim rest [ [] ↦ if a == b'0' then [] else a ∷ [] | b ∷ t ↦ a ∷ b ∷ t ])
          ≡ true
    go [] g d = elim (Bool-cases (a == b'0')) [
      | inl same ↦ rw same refl
      | inr other ↦ rw other (rw d refl)
    ]
    go (b ∷ t) g d = rw d g

-- The eight digits behind the point.
abbrev fraction_digits : ℕ → Text
fraction_digits f = pad_start 8 (decimal f)

fraction_digits-length : (f : ℕ) → f < 100000000 → length (fraction_digits f) ≡ 8
unfolding decimal
fraction_digits-length f h =
    length-pad_start 8 (decimal f) (length-decimal_fuel 7 (suc f) f (omega (arith, h)))

fraction_digits-read : (f : ℕ) → read_digits 0 (fraction_digits f) ≡ f
unfolding pad_start
fraction_digits-read f =
    read_digits-zeros (8 - length (decimal f)) (decimal f) ∙ read_digits-decimal f

fraction_digits-digits : (f : ℕ) → all_units is_digit (fraction_digits f) ≡ true
unfolding pad_start
fraction_digits-digits f =
    all_units-append is_digit (zeros (8 - length (decimal f))) (decimal f)
      (all_digits-zeros (8 - length (decimal f))) (decimal-all_digits f)

-- Reading the trimmed fraction gives the fraction.
fraction-read :
    (f : ℕ) → f < 100000000 → read_digits 0 (pad_end 8 (trim_zeros (fraction_digits f))) ≡ f
fraction-read f h =
    ap (λ k. read_digits 0 (pad_end k (trim_zeros (fraction_digits f))))
      (sym (fraction_digits-length f h))
    ∙ ap (read_digits 0) (pad_end-trim_zeros (fraction_digits f))
    ∙ fraction_digits-read f

fraction-is_fraction :
    (f : ℕ) → f < 100000000 → f ≢ 0 → is_fraction (trim_zeros (fraction_digits f)) ≡ true
unfolding pad_end read_digits
fraction-is_fraction f h positive =
    go (trim_zeros (fraction_digits f))
      (trim_zeros-digits (fraction_digits f) (fraction_digits-digits f))
      (omega (arith, trim_zeros-length (fraction_digits f), fraction_digits-length f h))
      (fraction-read f h)
  where
    go :
        (t : Text)
        → all_units is_digit t ≡ true
        → length t ≤ 8
        → read_digits 0 (pad_end 8 t) ≡ f
        → is_fraction t ≡ true
    go [] digits short read = absurd (positive (sym read))
    go (a ∷ t) digits short read = rw digits (ground arith)

-- The amount that a text with a point, and one without, says.
with_fraction :
    (whole fraction : ℕ)
    → fraction < 100000000
    → fraction ≢ 0
    → human_to_sats (decimal whole ++ b'.' ∷ trim_zeros (fraction_digits fraction))
      ≡ valid (whole * 100000000 + fraction)
unfolding human_to_sats is_valid_human_amount sats_of
with_fraction whole fraction h positive =
    let parts =
      cut-after_digits b'.' (decimal whole) (trim_zeros (fraction_digits fraction)) refl
        (decimal-all_digits whole) in
    let good : is_valid_human_amount (decimal whole ++ b'.' ∷ trim_zeros (fraction_digits fraction))
        ≡ true =
      rw (parts, is_valid_human_amount)
        (rw (decimal-is_plain_integer whole)
          (rw (fraction-is_fraction fraction h positive) refl)) in
    rw good (rw parts (rw (read_digits-decimal whole) (rw (fraction-read fraction h) refl)))

without_fraction : (whole : ℕ) → human_to_sats (decimal whole) ≡ valid (whole * 100000000)
unfolding human_to_sats is_valid_human_amount sats_of pad_end read_digits
without_fraction whole =
    let parts = cut-digits b'.' (decimal whole) refl (decimal-all_digits whole) in
    let good : is_valid_human_amount (decimal whole) ≡ true =
      rw (parts, is_valid_human_amount) (decimal-is_plain_integer whole) in
    rw good (rw parts (rw (read_digits-decimal whole) (ap valid (omega arith))))

-- The text of an amount that is not negative reads back as that amount: the text is accepted, and no
-- satoshi is lost or made.
pub human_to_sats-sats_to_human : (n : ℕ) → human_to_sats (sats_to_human (pos n)) ≡ valid n
unfolding sats_to_human
human_to_sats-sats_to_human n = elim (Bool-cases (n % 100000000 == 0)) [
  | inl whole ↦ rw whole (
      without_fraction (n / 100000000)
      ∙ ap valid (omega (arith, (==_iff (n % 100000000) 0).0 whole)))
  | inr part ↦ rw part (
      with_fraction (n / 100000000) (n % 100000000) (omega arith) (ground arith)
      ∙ ap valid (omega arith))
]
