-- ===== src/Protocol/Headers.antt =====
-- The payment headers: `parsePaymentHeaders` of packages/protocol/src/schemas.ts with the names of
-- headers.ts, `normalizeIdentityKey` of identity.ts, and `parseSchemeHeader` of
-- packages/verifier/src/registry.ts. `lower` stands for `toLowerCase`, `trim` for `trim`.
use v.Base.{Bool, true, false, not, ◌&&◌, Option, none, some, List, [], ◌∷◌, leb}
use v.Base.Text.{Text, codes}
use v.Base.Dict.{Dict, get, set}
use v.Base.Lists.{length}
use v.Base.Decimal.{read_digits}
use v.Base.Strings.{cut, ends_with, is_empty}
use v.Protocol.Types.{PaymentClaim}
use v.Protocol.Amount.{is_plain_integer, is_valid_human_amount, is_base64_signature}
use v.Protocol.Canonical.{is_line_safe, is_safe_integer, is_valid_ulid}

-- What stands under a name: a value, or a list of values.
pub data HeaderValue : Type 0 where
  one : Text → HeaderValue
  many : List Text → HeaderValue

abbrev pub Headers : Type 0
Headers = List (Text × Option HeaderValue)

-- Why `parsePaymentHeaders` refuses, with the header's name.
pub data HeaderError : Type 0 where
  missing repeated malformed : (name : Text) → HeaderError

pub data Parsed (A : Type 0) : Type 0 where
  parsed : A → Parsed A
  refused : HeaderError → Parsed A

infixl 5 ◌>>=◌ ◌>>◌
abbrev pub ◌>>=◌ : {A B : Type 0} → Parsed A → (A → Parsed B) → Parsed B
◌>>=◌ (parsed a) f = f a
◌>>=◌ (refused e) f = refused e

abbrev pub ◌>>◌ : {A B : Type 0} → Parsed A → Parsed B → Parsed B
m >> k = m >>= λ _. k

abbrev pub expect : Bool → Text → Parsed (Unit {0})
expect true name = parsed tt
expect false name = refused (malformed name)

abbrev pub header_scheme : Text
header_scheme = codes "X-V402-Scheme"

abbrev pub header_payer : Text
header_payer = codes "X-V402-Payer"

abbrev pub header_amount : Text
header_amount = codes "X-V402-Amount"

abbrev pub header_request_id : Text
header_request_id = codes "X-V402-Request-Id"

abbrev pub header_issued_at : Text
header_issued_at = codes "X-V402-Issued-At"

abbrev pub header_signature : Text
header_signature = codes "X-V402-Signature"

abbrev pub header_extensions : Text
header_extensions = codes "X-V402-Extensions"

-- `identitySchema`
unfoldable pub is_identity : Text → Bool
unfolding is_line_safe ends_with
is_identity value = is_line_safe value && ends_with b'@' value && leb 2 (length value)

-- The single value of a header that may be there.
abbrev pub single_value : Text → HeaderValue → Parsed Text
single_value name (one value) = parsed value
single_value name (many (value ∷ [])) = parsed value
single_value name (many _) = refused (repeated name)

module _ (lower : Text → Text) where
  -- The loop that fills `byName`.
  unfoldable pub by_name : Headers → Dict HeaderValue → Dict HeaderValue
  unfolding set
  by_name [] m = m
  by_name ((name, none) ∷ hs) m = by_name hs m
  by_name ((name, some value) ∷ hs) m = by_name hs (set (lower name) value m)

  unfoldable pub single : Dict HeaderValue → Text → Parsed Text
  unfolding get
  single m name = elim (get (lower name) m) [
    | none ↦ refused (missing name)
    | some value ↦ single_value name value
  ]

  unfoldable pub read_extensions : Dict HeaderValue → Parsed (Option Text)
  unfolding get
  read_extensions m = elim (get (lower header_extensions) m) [
    | none ↦ parsed none
    | some value ↦ single_value header_extensions value >>= λ raw. parsed (some raw)
  ]

  unfoldable pub parse_payment_headers : Headers → Parsed PaymentClaim
  unfolding by_name single read_extensions is_identity is_valid_human_amount is_valid_ulid
      is_base64_signature read_digits
  parse_payment_headers headers = do
    let m = by_name headers []
    scheme ← single m header_scheme
    payer ← single m header_payer
    amount ← single m header_amount
    request_id ← single m header_request_id
    issued_at_raw ← single m header_issued_at
    signature ← single m header_signature
    expect (is_identity payer) header_payer
    expect (is_valid_human_amount amount) header_amount
    expect (is_valid_ulid request_id) header_request_id
    expect (is_plain_integer issued_at_raw && is_safe_integer (read_digits 0 issued_at_raw))
        header_issued_at
    expect (is_base64_signature signature) header_signature
    expect (not (is_empty scheme)) header_scheme
    extensions ← read_extensions m
    parsed (record {
      scheme = scheme;
      payer = payer;
      amount = amount;
      request_id = request_id;
      issued_at = read_digits 0 issued_at_raw;
      signature = signature;
      extensions_raw = extensions;
    })

  unfoldable pub normalize_identity_key : (Text → Text) → Text → Text
  normalize_identity_key trim identity = lower (trim identity)

-- The scheme and, behind the first slash, its version.
unfoldable pub parse_scheme_header : Text → Text × Option Text
unfolding cut
parse_scheme_header value = elim (cut (b'/' ∷ []) value) [
  | none ↦ (value, none)
  | some (scheme, version) ↦ (scheme, some version)
]
