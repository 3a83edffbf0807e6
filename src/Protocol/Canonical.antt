-- ===== src/Protocol/Canonical.antt =====
-- The text that is signed: packages/protocol/src/canonical.ts.
use v.Base.{ℕ, Bool, false, not, ◌&&◌, ◌||◌, none, some, List, [], ◌∷◌, ◌++◌, ◌==◌, ltb, leb}
use v.Base.Text.{Text, codes, text_eq}
use v.Base.Lists.{length}
use v.Base.Decimal.{decimal}
use v.Base.Strings.{
  starts_with, ends_with, includes, cut, split, join, all_units, some_units, is_digit, is_lower,
  is_upper, is_space, in_range,
}
use v.Protocol.Types.{
  V402ProtocolErrorCode, Checked, valid, ◌>>=◌, ◌>>◌, require, CanonicalPayload,
  BalanceQueryPayload, scheme_context_line, balance_query_context, ledger_query_context,
}
use v.Protocol.Amount.{is_valid_human_amount}
use v.Protocol.Extensions.{is_kebab, serialize_extension_block}

-- `[0-9A-HJKMNP-TV-Z]`
abbrev pub is_ulid_unit : ℕ → Bool
is_ulid_unit c =
    is_digit c
    || in_range b'A' b'H' c
    || c == b'J'
    || c == b'K'
    || c == b'M'
    || c == b'N'
    || in_range b'P' b'T' c
    || in_range b'V' b'Z' c

unfoldable pub is_valid_ulid : Text → Bool
unfolding all_units
is_valid_ulid [] = false
is_valid_ulid (a ∷ s) = in_range b'0' b'7' a && all_units is_ulid_unit s && length s == 25

-- `/^\d+\.\d+$/`
unfoldable pub is_scheme_version : Text → Bool
unfolding cut all_units
is_scheme_version s = elim (cut (b'.' ∷ []) s) [
  | none ↦ false
  | some (major, minor) ↦ some_units is_digit major && some_units is_digit minor
]

unfoldable pub is_method : Text → Bool
unfolding all_units
is_method s = some_units is_upper s

unfoldable pub is_network : Text → Bool
unfolding all_units
is_network s = some_units (λ c. is_lower c || is_digit c) s

-- `[^\s\x00-\x1f\x7f]`
abbrev pub is_line_unit : ℕ → Bool
is_line_unit c = not (is_space c || leb c 31 || c == 127)

unfoldable pub is_line_safe : Text → Bool
unfolding all_units
is_line_safe s = some_units is_line_unit s

abbrev pub assert_line_safe : Text → Checked (Unit {0})
assert_line_safe value = require (is_line_safe value) V402ProtocolErrorCode.invalid_field

abbrev pub assert_identity : Text → Checked (Unit {0})
assert_identity value =
    assert_line_safe value
    >> require (ends_with b'@' value && leb 2 (length value)) V402ProtocolErrorCode.invalid_field

-- `value.split("?", 1)[0]`
abbrev pub path_part : Text → Text
path_part value = elim (cut (b'?' ∷ []) value) [ none ↦ value | some (path, _) ↦ path ]

unfoldable pub has_dot_segment : List Text → Bool
has_dot_segment [] = false
has_dot_segment (x ∷ xs) = text_eq x (codes ".") || text_eq x (codes "..") || has_dot_segment xs

unfoldable pub assert_path : Text → Checked (Unit {0})
unfolding is_line_safe starts_with includes split has_dot_segment cut
assert_path value = do
  assert_line_safe value
  require (starts_with (codes "/") value) V402ProtocolErrorCode.invalid_field
  require (not (includes (codes "//") (path_part value))) V402ProtocolErrorCode.invalid_field
  require (not (has_dot_segment (split b'/' (path_part value)))) V402ProtocolErrorCode.invalid_field

-- `Number.isSafeInteger`
abbrev pub is_safe_integer : ℕ → Bool
is_safe_integer n = ltb n 9007199254740992

abbrev pub assert_unix_seconds : ℕ → Checked (Unit {0})
assert_unix_seconds value = require (is_safe_integer value) V402ProtocolErrorCode.invalid_field

abbrev pub assert_request_id : Text → Checked (Unit {0})
assert_request_id value = require (is_valid_ulid value) V402ProtocolErrorCode.invalid_field

-- The checks of `canonicalize`, in its order.
unfoldable pub check_payload : CanonicalPayload → Checked (Unit {0})
unfolding is_kebab is_scheme_version is_line_safe is_method assert_path is_network
    is_valid_human_amount is_valid_ulid
check_payload p = do
  require (is_kebab p.scheme) V402ProtocolErrorCode.invalid_field
  require (is_scheme_version p.scheme_version) V402ProtocolErrorCode.invalid_field
  assert_line_safe p.canonical_domain
  require (is_method p.method) V402ProtocolErrorCode.invalid_field
  assert_path p.path
  require (is_network p.network) V402ProtocolErrorCode.invalid_field
  assert_line_safe p.asset
  require (is_valid_human_amount p.amount) V402ProtocolErrorCode.invalid_field
  assert_identity p.payer
  assert_identity p.pay_to
  assert_request_id p.request_id
  assert_unix_seconds p.issued_at

-- The lines of a payment, before the extensions.
abbrev pub payload_lines : CanonicalPayload → List Text
payload_lines p =
    scheme_context_line p.scheme p.scheme_version
    ∷ (codes "canonicalDomain: " ++ p.canonical_domain)
    ∷ (codes "method: " ++ p.method)
    ∷ (codes "path: " ++ p.path)
    ∷ (codes "scheme: " ++ p.scheme)
    ∷ (codes "network: " ++ p.network)
    ∷ (codes "asset: " ++ p.asset)
    ∷ (codes "amount: " ++ p.amount)
    ∷ (codes "payer: " ++ p.payer)
    ∷ (codes "payTo: " ++ p.pay_to)
    ∷ (codes "requestId: " ++ p.request_id)
    ∷ (codes "issuedAt: " ++ decimal p.issued_at)
    ∷ []

unfoldable pub canonicalize : CanonicalPayload → Checked Text
unfolding check_payload join serialize_extension_block
canonicalize p =
    let lines = join b'\n' (payload_lines p) in
    check_payload p >> elim p.extensions [
      | [] ↦ valid lines
      | f ∷ fs ↦ serialize_extension_block (f ∷ fs) >>= λ block. valid (lines ++ b'\n' ∷ block)
    ]

-- The checks of `canonicalizeBalanceQuery` and of `canonicalizeLedgerQuery`.
unfoldable pub check_query : BalanceQueryPayload → Checked (Unit {0})
unfolding is_line_safe is_network is_valid_ulid
check_query p = do
  assert_line_safe p.canonical_domain
  require (is_network p.network) V402ProtocolErrorCode.invalid_field
  assert_identity p.payer
  assert_request_id p.request_id
  assert_unix_seconds p.issued_at

abbrev pub query_lines : Text → BalanceQueryPayload → List Text
query_lines context p =
    context
    ∷ (codes "canonicalDomain: " ++ p.canonical_domain)
    ∷ (codes "network: " ++ p.network)
    ∷ (codes "payer: " ++ p.payer)
    ∷ (codes "requestId: " ++ p.request_id)
    ∷ (codes "issuedAt: " ++ decimal p.issued_at)
    ∷ []

unfoldable pub canonicalize_balance_query : BalanceQueryPayload → Checked Text
unfolding check_query join
canonicalize_balance_query p =
    check_query p >> valid (join b'\n' (query_lines balance_query_context p))

unfoldable pub canonicalize_ledger_query : BalanceQueryPayload → Checked Text
unfolding check_query join
canonicalize_ledger_query p =
    check_query p >> valid (join b'\n' (query_lines ledger_query_context p))
