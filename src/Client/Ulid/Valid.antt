-- ===== src/Client/Ulid/Valid.antt =====
-- The ids of packages/client-fetch/src/ulid.ts are ULIDs, and two of them differ where their random
-- bits do.
use v.Base.{
  ℕ, zero, suc, ◌+◌, ◌*◌, ◌/◌, ◌%◌, ◌<◌, ◌≡◌, ◌≢◌, refl, sym, ap, ◌∙◌, Bool, true, ◌&&◌, [], ◌∷◌,
  ◌++◌, arith, ◌==◌, ==_iff, inl, inr, Bool-cases, if◌then◌else◌,
}
use v.Base.Text.{Text, codes}
use v.Base.Lists.{length, length-append, drop}
use v.Base.Strings.{all_units, in_range}
use v.Protocol.Canonical.{is_ulid_unit, is_valid_ulid}
use v.Client.Ulid.{crockford, unit_at, encode, ulid}

unit_at-all_units :
    (p : ℕ → Bool) (s : Text) (d : ℕ) → all_units p s ≡ true → d < length s → p (unit_at s d) ≡ true
unfolding all_units unit_at
unit_at-all_units p [] d h below = absurd (omega (arith, below))
unit_at-all_units p (c ∷ s) zero h below = ground arith
unit_at-all_units p (c ∷ s) (suc d) h below =
    unit_at-all_units p s d (ground arith) (omega (arith, below))

unit_at-append : (s t : Text) (d : ℕ) → d < length s → unit_at (s ++ t) d ≡ unit_at s d
unfolding unit_at
unit_at-append [] t d below = omega (arith, below)
unit_at-append (c ∷ s) t zero below = refl
unit_at-append (c ∷ s) t (suc d) below = unit_at-append s t d (omega (arith, below))

crockford-is_ulid_unit : (d : ℕ) → d < 32 → is_ulid_unit (unit_at crockford d) ≡ true
unfolding all_units
crockford-is_ulid_unit d below = unit_at-all_units is_ulid_unit crockford d refl below

-- The first eight digits are 0 to 7.
crockford-low : (d : ℕ) → d < 8 → in_range b'0' b'7' (unit_at crockford d) ≡ true
unfolding all_units
crockford-low d below =
    ap (in_range b'0' b'7')
      (unit_at-append (codes "01234567") (codes "89ABCDEFGHJKMNPQRSTVWXYZ") d below)
    ∙ unit_at-all_units (in_range b'0' b'7') (codes "01234567") d refl below

all_units-append :
    (p : ℕ → Bool) (s t : Text)
    → all_units p s ≡ true
    → all_units p t ≡ true
    → all_units p (s ++ t) ≡ true
unfolding all_units
all_units-append p [] t h g = g
all_units-append p (c ∷ s) t h g = elim (Bool-cases (p c)) [
  | inl ok ↦ rw ok (all_units-append p s t (rw ok at h) g)
  | inr bad ↦ absurd (cc (rw bad at h))
]

encode-length : (k n : ℕ) → length (encode k n) ≡ k
unfolding encode
encode-length zero n = refl
encode-length (suc k) n = omega (
  arith,
  length-append (encode k (n / 32)) (unit_at crockford (n % 32) ∷ []),
  encode-length k (n / 32),
)

encode-is_ulid_unit : (k n : ℕ) → all_units is_ulid_unit (encode k n) ≡ true
unfolding encode all_units
encode-is_ulid_unit zero n = refl
encode-is_ulid_unit (suc k) n =
    all_units-append is_ulid_unit (encode k (n / 32)) (unit_at crockford (n % 32) ∷ [])
      (encode-is_ulid_unit k (n / 32)) (rw (crockford-is_ulid_unit (n % 32) (omega arith)) refl)

abbrev pow32 : ℕ → ℕ
pow32 zero = 1
pow32 (suc k) = 32 * pow32 k

-- A numeral whose first digit is low.
abbrev HasLowHead : Text → Type 0
HasLowHead s = (d : ℕ) × (rest : Text) × (s ≡ unit_at crockford d ∷ rest) × (d < 8)

encode-HasLowHead : (k n : ℕ) → n < 8 * pow32 k → HasLowHead (encode (suc k) n)
unfolding encode
encode-HasLowHead zero n below = (n % 32, [], refl, omega (arith, below))
encode-HasLowHead (suc k) n below =
    let (d, rest, e, low) = encode-HasLowHead k (n / 32) (omega (arith, below)) in
    (
      d,
      rest ++ unit_at crockford (n % 32) ∷ [],
      ap (λ s. s ++ unit_at crockford (n % 32) ∷ []) e,
      low,
    )

valid-after :
    (d : ℕ) (rest more : Text)
    → d < 8
    → all_units is_ulid_unit (unit_at crockford d ∷ rest) ≡ true
    → length (unit_at crockford d ∷ rest) ≡ 10
    → all_units is_ulid_unit more ≡ true
    → length more ≡ 16
    → is_valid_ulid ((unit_at crockford d ∷ rest) ++ more) ≡ true
unfolding is_valid_ulid all_units
valid-after d rest more low units ten more_units sixteen =
    let rest_units : all_units is_ulid_unit rest ≡ true =
      rw (crockford-is_ulid_unit d (omega (arith, low))) at units in
    let long : length (rest ++ more) ≡ 25 = omega (arith, length-append rest more, ten, sixteen) in
    rw (crockford-low d low) (
      rw (all_units-append is_ulid_unit rest more rest_units more_units)
        ((==_iff (length (rest ++ more)) 25).1 long))

-- An id made in the 48 bits of milliseconds that a ULID has room for, from any random bits, is one
-- that the server's schema accepts.
pub ulid-is_valid_ulid :
    (timestamp random : ℕ)
    → timestamp < 281474976710656
    → is_valid_ulid (ulid timestamp random) ≡ true
unfolding ulid
ulid-is_valid_ulid timestamp random below =
    let (d, rest, e, low) = encode-HasLowHead 9 timestamp below in
    ap (λ s. is_valid_ulid (s ++ encode 16 random)) e
    ∙ valid-after d rest (encode 16 random) low
        (sym (ap (all_units is_ulid_unit) e) ∙ encode-is_ulid_unit 10 timestamp)
        (sym (ap length e) ∙ encode-length 10 timestamp) (encode-is_ulid_unit 16 random)
        (encode-length 16 random)

-- Reading the digits back.
index_in : Text → ℕ → ℕ
index_in [] c = 0
index_in (x ∷ s) c = let rest = index_in s c in if x == c then 0 else suc rest

read_base32 : ℕ → Text → ℕ
read_base32 acc [] = acc
read_base32 acc (c ∷ s) = read_base32 (acc * 32 + index_in crockford c) s

all_below : ℕ → (ℕ → Bool) → Bool
all_below zero p = true
all_below (suc n) p = p n && all_below n p

all_below-at : (n : ℕ) (p : ℕ → Bool) (d : ℕ) → all_below n p ≡ true → d < n → p d ≡ true
unfolding all_below
all_below-at zero p d h below = absurd (omega (arith, below))
all_below-at (suc n) p d h below = elim (Bool-cases (d == n)) [
  | inl same ↦ ap p ((==_iff d n).0 same) ∙ ground arith
  | inr other ↦ all_below-at n p d (ground arith) (ground arith)
]

index-unit : (d : ℕ) → d < 32 → index_in crockford (unit_at crockford d) ≡ d
unfolding all_below index_in unit_at
index-unit d below =
    (==_iff (index_in crockford (unit_at crockford d)) d).0
      (all_below-at 32 (λ i. index_in crockford (unit_at crockford i) == i) d refl below)

read_base32-append :
    (acc : ℕ) (s : Text) (c : ℕ)
    → read_base32 acc (s ++ c ∷ []) ≡ read_base32 acc s * 32 + index_in crockford c
unfolding read_base32
read_base32-append acc [] c = refl
read_base32-append acc (x ∷ s) c = read_base32-append (acc * 32 + index_in crockford x) s c

read_base32-encode : (k n : ℕ) → n < pow32 k → read_base32 0 (encode k n) ≡ n
unfolding encode read_base32
read_base32-encode zero n below = omega (arith, below)
read_base32-encode (suc k) n below = omega (
  arith,
  read_base32-append 0 (encode k (n / 32)) (unit_at crockford (n % 32)),
  index-unit (n % 32) (omega arith),
  read_base32-encode k (n / 32) (omega (arith, below)),
)

drop-append : (s t : Text) → drop (length s) (s ++ t) ≡ t
drop-append [] t = refl
drop-append (c ∷ s) t = drop-append s t

encode-drop : (k n : ℕ) (t : Text) → drop k (encode k n ++ t) ≡ t
encode-drop k n t =
    ap (λ j. drop j (encode k n ++ t)) (sym (encode-length k n)) ∙ drop-append (encode k n) t

-- Two ids of different 80 random bits are different, whenever they are made.
pub ulid-injective :
    (timestamp timestamp' random random' : ℕ)
    → random < 1208925819614629174706176
    → random' < 1208925819614629174706176
    → random ≢ random'
    → ulid timestamp random ≢ ulid timestamp' random'
unfolding ulid
ulid-injective timestamp timestamp' random random' below below' differ = λ same. differ (
    sym (read_base32-encode 16 random below)
    ∙ ap (read_base32 0) (
        sym (encode-drop 10 timestamp (encode 16 random))
        ∙ ap (drop 10) same
        ∙ encode-drop 10 timestamp' (encode 16 random'))
    ∙ read_base32-encode 16 random' below')
