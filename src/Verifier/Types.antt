-- ===== src/Verifier/Types.antt =====
-- The types of packages/verifier/src/types.ts and the configuration of prepaid-sig.ts. An error
-- has its status, its code and its details; the message is left out.
use v.Base.{ℕ, Bool, Option, List}
use v.Base.Int.{ℤ}
use v.Base.Text.{Text}
use v.Storage.Types.{SpentRequestStatus, Thrown}
use v.Protocol.Types.{V402ProtocolErrorCode, PaymentClaim}
use v.Protocol.Headers.{Headers}

-- A body is its bytes.
pub record IncomingPaymentRequest : Type 0 where
  pub method : Text
  pub path : Text
  pub headers : Headers
  pub raw_body : Option (List ℕ)

pub data BodyHashPolicy : Type 0 where
  required optional ignored : BodyHashPolicy

pub record RoutePolicy : Type 0 where
  pub price_human : Text
  pub body_hash_policy : BodyHashPolicy

pub data VerifyErrorCode : Type 0 where
  invalid_headers unsupported_scheme unsupported_scheme_version price_mismatch extensions_too_large
        invalid_extensions unknown_scheme_extension reserved_extension body_hash_required
        body_hash_mismatch invalid_body_hash timestamp_out_of_window invalid_request blocked
        invalid_signature verify_unavailable replay insufficient_balance no_balance unknown_request
        invalid_state :
      VerifyErrorCode

-- Satoshis stand as numbers where the program prints them.
pub data Details : Type 0 where
  no_details : Details
  supported_schemes supported_scheme_versions : List Text → Details
  current_price deposit_address : Text → Details
  max_bytes tolerance_sec retry_after_sec : ℕ → Details
  previous_status : SpentRequestStatus → Details
  balance : (balance_sats : ℤ) (required_sats : ℕ) (deposit_address : Text) → Details

pub record VerifyError : Type 0 where
  pub http_status : ℕ
  pub code : VerifyErrorCode
  pub details : Details

-- A method's result union, and what it throws.
pub data Reply (A : Type 0) : Type 0 where
  accepted : A → Reply A
  failed : VerifyError → Reply A
  protocol_thrown : V402ProtocolErrorCode → Reply A
  storage_thrown : Thrown → Reply A

abbrev pub fail : {A : Type 0} → ℕ → VerifyErrorCode → Details → Reply A
fail http_status code details =
    failed (record { http_status = http_status; code = code; details = details })

pub record Verified : Type 0 where
  pub request_id : Text
  pub payer : Text
  pub amount_sats : ℕ

pub record Reserved : Type 0 where
  pub verified : Verified
  pub balance_after_sats : ℤ

pub record Committed : Type 0 where
  pub already_committed : Bool
  pub late : Bool
  pub balance_after_sats : Option ℤ

pub record RolledBack : Type 0 where
  pub already_rolled_back : Bool

pub record CheckedClaim : Type 0 where
  pub claim : PaymentClaim
  pub identity_key : Text
  pub received_at : ℕ

pub record PrepaidSigVerifierConfig : Type 0 where
  pub network : Text
  pub asset : Text
  pub pay_to : Text
  pub canonical_domain : Text
  pub timestamp_tolerance_sec : ℕ
  pub max_extensions_bytes : ℕ
  pub scheme_versions : List Text

-- What a call to the node, or to the source of identity states, ends in.
pub data RpcAnswer (A : Type 0) : Type 0 where
  answered : A → RpcAnswer A
  unavailable : RpcAnswer A
  app_error : RpcAnswer A

-- The identity states of offline mode: `same` compares the objects, and `is_signed` is
-- `verifyIdentitySignature` of the text and the signature against a state.
pub record IdentityStateProvider (State : Type 0) : Type 0 where
  pub get_identity_state : Text → RpcAnswer State
  pub refresh_identity_state : Text → RpcAnswer State
  pub same : State → State → Bool
  pub is_signed : (canonical signature : Text) → State → Bool

-- What the scheme calls and does not implement: the strings' functions, the hash, the decoding of
-- the extensions' header, the node.
pub record Environment (State : Type 0) : Type 0 where
  pub lower : Text → Text
  pub trim : Text → Text
  pub sha256_hex : List ℕ → Text
  pub from_base64 : Text → List ℕ
  pub to_utf8 : List ℕ → Text
  -- payer, signature, text, `checkLatest`
  pub verify_message : Text → Text → Text → Bool → RpcAnswer Bool
  pub identity_provider : Option (IdentityStateProvider State)
