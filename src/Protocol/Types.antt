-- ===== src/Protocol/Types.antt =====
-- The types of packages/protocol/src: types.ts, errors.ts, and the constants of headers.ts and
-- version.ts. A call that may throw a `V402ProtocolError` returns its code in place of a value; the
-- error's message is left out.
use v.Base.{ℕ, Bool, true, false, Option, List, ◌∷◌, ◌++◌}
use v.Base.Text.{Text, codes}

pub data V402ProtocolErrorCode : Type 0 where
  invalid_amount invalid_field invalid_extension_key invalid_extension_value extensions_unsorted
        extensions_duplicate_key invalid_extension_block invalid_signature_encoding :
      V402ProtocolErrorCode

pub data Checked (A : Type 0) : Type 0 where
  valid : A → Checked A
  invalid : V402ProtocolErrorCode → Checked A

infixl 5 ◌>>=◌ ◌>>◌
abbrev pub ◌>>=◌ : {A B : Type 0} → Checked A → (A → Checked B) → Checked B
◌>>=◌ (valid a) f = f a
◌>>=◌ (invalid code) f = invalid code

abbrev pub ◌>>◌ : {A B : Type 0} → Checked A → Checked B → Checked B
m >> k = m >>= λ _. k

-- `if (!test) throw …`
abbrev pub require : Bool → V402ProtocolErrorCode → Checked (Unit {0})
require true code = valid tt
require false code = invalid code

pub record ExtensionField : Type 0 where
  pub key : Text
  pub value : Text

-- `issuedAt` is a whole number, 0 or more, as every parsed claim has it.
pub record CanonicalPayload : Type 0 where
  pub scheme : Text
  pub scheme_version : Text
  pub canonical_domain : Text
  pub method : Text
  pub path : Text
  pub network : Text
  pub asset : Text
  pub amount : Text
  pub payer : Text
  pub pay_to : Text
  pub request_id : Text
  pub issued_at : ℕ
  pub extensions : List ExtensionField

pub record BalanceQueryPayload : Type 0 where
  pub canonical_domain : Text
  pub network : Text
  pub payer : Text
  pub request_id : Text
  pub issued_at : ℕ

-- The fields of `PaymentRequirement` that the handshake reads.
pub record PaymentRequirement : Type 0 where
  pub scheme : Text
  pub scheme_version : Text
  pub network : Text
  pub asset : Text
  pub amount : Text
  pub pay_to : Text
  pub canonical_domain : Text

pub record PaymentClaim : Type 0 where
  pub scheme : Text
  pub payer : Text
  pub amount : Text
  pub request_id : Text
  pub issued_at : ℕ
  pub signature : Text
  pub extensions_raw : Option Text

abbrev pub scheme_verus_prepaid_sig : Text
scheme_verus_prepaid_sig = codes "verus-prepaid-sig"

abbrev pub verus_prepaid_sig_version : Text
verus_prepaid_sig_version = codes "0.1"

abbrev pub scheme_context_line : Text → Text → Text
scheme_context_line scheme scheme_version = scheme ++ b'/' ∷ scheme_version

abbrev pub balance_query_context : Text
balance_query_context = codes "v402-balance-query/0.1"

abbrev pub ledger_query_context : Text
ledger_query_context = codes "v402-ledger-query/0.1"

abbrev pub max_extensions_bytes : ℕ
max_extensions_bytes = 4096
