-- ===== src/Verifier/Checks.antt =====
-- The checks before the debit: `runChecks`, `decodeExtensions` and `verifySignatureOffline` of
-- packages/verifier/src/prepaid-sig.ts.
use v.Base.{
  ℕ, ◌+◌, ◌-◌, Bool, true, false, not, ◌&&◌, ◌||◌, Option, none, some, List, [], ◌∷◌, ◌++◌,
  if◌then◌else◌, ◌==◌, ltb,
}
use v.Base.Text.{Text, codes, text_eq}
use v.Base.Lists.{length, drop}
use v.Base.Strings.{starts_with, all_units, is_digit, in_range}
use v.Protocol.Types.{
  Checked, valid, invalid, ExtensionField, PaymentClaim, CanonicalPayload, scheme_verus_prepaid_sig,
}
use v.Protocol.Amount.{is_base64_signature}
use v.Protocol.Extensions.{parse_extension_block}
use v.Protocol.Canonical.{canonicalize}
use v.Protocol.Headers.{
  Parsed, parsed, refused, parse_payment_headers, normalize_identity_key, parse_scheme_header,
}
use v.Storage.State.{Storage}
use v.Storage.Records.{is_blocked}
use v.Verifier.Types.{
  IncomingPaymentRequest, BodyHashPolicy, RoutePolicy, VerifyErrorCode, Details, no_details,
  supported_schemes, supported_scheme_versions, current_price, max_bytes, tolerance_sec,
  retry_after_sec, Reply, accepted, failed, protocol_thrown, storage_thrown, fail, CheckedClaim,
  PrepaidSigVerifierConfig, RpcAnswer, answered, unavailable, app_error, IdentityStateProvider,
  Environment,
}

infixl 5 ◌>>=◌ ◌>>◌
abbrev pub ◌>>=◌ : {A B : Type 0} → Reply A → (A → Reply B) → Reply B
◌>>=◌ (accepted a) f = f a
◌>>=◌ (failed e) f = failed e
◌>>=◌ (protocol_thrown code) f = protocol_thrown code
◌>>=◌ (storage_thrown t) f = storage_thrown t

abbrev pub ◌>>◌ : {A B : Type 0} → Reply A → Reply B → Reply B
m >> k = m >>= λ _. k

-- `if (!test) return fail(…)`
abbrev pub demand : Bool → ℕ → VerifyErrorCode → Details → Reply (Unit {0})
demand true http_status code extras = accepted tt
demand false http_status code extras = fail http_status code extras

-- `list.includes(value)` of a value that may be undefined.
unfoldable pub lists : List Text → Option Text → Bool
lists [] version = false
lists (x ∷ xs) none = false
lists (x ∷ xs) (some version) = text_eq x version || lists xs (some version)

-- `version ?? versions[0]`
abbrev pub version_or_default : Option Text → List Text → Option Text
version_or_default (some version) versions = some version
version_or_default none [] = none
version_or_default none (x ∷ xs) = some x

abbrev pub or_empty : Option Text → Text
or_empty none = []
or_empty (some t) = t

abbrev pub scheme_body_hash : Text
scheme_body_hash = codes "scheme.bodyHash"

abbrev pub is_hex_unit : ℕ → Bool
is_hex_unit c = is_digit c || in_range b'a' b'f' c

-- `BODY_HASH_RE`
unfoldable pub is_body_hash : Text → Bool
unfolding starts_with all_units
is_body_hash value =
    let digits = drop 7 value in
    starts_with (codes "sha256:") value && length digits == 64 && all_units is_hex_unit digits

-- The loop over the extensions' keys.
unfoldable pub check_keys : List ExtensionField → Reply (Unit {0})
unfolding starts_with
check_keys [] = accepted tt
check_keys (f ∷ fs) =
    let rest = check_keys fs in
    demand (not (starts_with (codes "scheme.") f.key && not (text_eq f.key scheme_body_hash))) 400
      VerifyErrorCode.unknown_scheme_extension no_details
    >> demand (not (starts_with (codes "iana.") f.key)) 400 VerifyErrorCode.reserved_extension
        no_details
    >> rest

-- `fields.find((f) => f.key === "scheme.bodyHash")`: its value.
unfoldable pub find_body_hash : List ExtensionField → Option Text
find_body_hash [] = none
find_body_hash (f ∷ fs) = if text_eq f.key scheme_body_hash then some f.value else find_body_hash fs

abbrev pub is_required : BodyHashPolicy → Bool
is_required BodyHashPolicy.required = true
is_required _ = false

abbrev pub is_ignored : BodyHashPolicy → Bool
is_ignored BodyHashPolicy.ignored = true
is_ignored _ = false

abbrev pub body_bytes : Option (List ℕ) → List ℕ
body_bytes none = []
body_bytes (some bytes) = bytes

abbrev pub has_bytes : List ℕ → Bool
has_bytes [] = false
has_bytes (_ ∷ _) = true

abbrev pub payload_of :
    PrepaidSigVerifierConfig
    → IncomingPaymentRequest
    → RoutePolicy
    → PaymentClaim
    → Text
    → List ExtensionField
    → CanonicalPayload
payload_of config request policy claim scheme_version extensions = record {
  scheme = scheme_verus_prepaid_sig;
  scheme_version = scheme_version;
  canonical_domain = config.canonical_domain;
  method = request.method;
  path = request.path;
  network = config.network;
  asset = config.asset;
  amount = policy.price_human;
  payer = claim.payer;
  pay_to = config.pay_to;
  request_id = claim.request_id;
  issued_at = claim.issued_at;
  extensions = extensions;
}

-- `Math.abs(now - issuedAt) > tolerance`
abbrev pub is_out_of_window : ℕ → ℕ → ℕ → Bool
is_out_of_window now issued_at tolerance = ltb tolerance ((now - issued_at) + (issued_at - now))

-- What the `try` around the signature's check makes of its end.
abbrev pub signature_verdict : RpcAnswer Bool → Reply (Unit {0})
signature_verdict (answered true) = accepted tt
signature_verdict (answered false) = fail 402 VerifyErrorCode.invalid_signature no_details
signature_verdict app_error = fail 402 VerifyErrorCode.invalid_signature no_details
signature_verdict unavailable = fail 503 VerifyErrorCode.verify_unavailable (retry_after_sec 5)

abbrev pub header_verdict : Parsed PaymentClaim → Reply PaymentClaim
header_verdict (parsed claim) = accepted claim
header_verdict (refused _) = fail 400 VerifyErrorCode.invalid_headers no_details

abbrev pub checked_or_fail : {A : Type 0} → VerifyErrorCode → Checked A → Reply A
checked_or_fail code (valid a) = accepted a
checked_or_fail code (invalid _) = fail 400 code no_details

module _ {State : Type 0} where
  unfoldable pub verify_again :
      IdentityStateProvider State → (payer signature canonical : Text) → State → RpcAnswer Bool
  verify_again provider payer signature canonical state =
      elim (provider.refresh_identity_state payer) [
        | answered fresh ↦
            if provider.same fresh state
            then answered false
            else answered (provider.is_signed canonical signature fresh)
        | unavailable ↦ unavailable
        | app_error ↦ app_error
      ]

  unfoldable pub verify_signature_offline :
      IdentityStateProvider State → (payer signature canonical : Text) → RpcAnswer Bool
  unfolding verify_again
  verify_signature_offline provider payer signature canonical =
      elim (provider.get_identity_state payer) [
        | answered state ↦
            if provider.is_signed canonical signature state
            then answered true
            else verify_again provider payer signature canonical state
        | unavailable ↦ unavailable
        | app_error ↦ app_error
      ]

  unfoldable pub is_signature_valid :
      Environment State → (payer signature canonical : Text) → RpcAnswer Bool
  unfolding verify_signature_offline
  is_signature_valid env payer signature canonical = elim env.identity_provider [
    | some provider ↦ verify_signature_offline provider payer signature canonical
    | none ↦ env.verify_message payer signature canonical true
  ]

  -- The first half of `decodeExtensions`: the fields of the header.
  unfoldable pub decode_fields : Environment State → ℕ → Option Text → Reply (List ExtensionField)
  unfolding is_base64_signature check_keys parse_extension_block
  decode_fields env limit none = accepted []
  decode_fields env limit (some raw) = do
    demand (is_base64_signature raw) 400 VerifyErrorCode.invalid_extensions no_details
    let decoded = env.from_base64 raw
    demand (not (ltb limit (length decoded))) 400 VerifyErrorCode.extensions_too_large
        (max_bytes limit)
    fields ←
        checked_or_fail VerifyErrorCode.invalid_extensions
          (parse_extension_block (env.to_utf8 decoded))
    check_keys fields
    accepted fields

  -- The second half: the hash of the body.
  unfoldable pub check_body_hash :
      Environment State → IncomingPaymentRequest → BodyHashPolicy → Option Text → Reply (Unit {0})
  unfolding is_body_hash
  check_body_hash env request policy none =
      demand (not (is_required policy && has_bytes (body_bytes request.raw_body))) 400
        VerifyErrorCode.body_hash_required no_details
  check_body_hash env request policy (some value) =
      if is_ignored policy
      then accepted tt
      else (demand (is_body_hash value) 400 VerifyErrorCode.invalid_body_hash no_details
          >> demand
              (text_eq value (codes "sha256:" ++ env.sha256_hex (body_bytes request.raw_body))) 400
              VerifyErrorCode.body_hash_mismatch no_details)

  unfoldable pub decode_extensions :
      Environment State
      → ℕ
      → PaymentClaim
      → IncomingPaymentRequest
      → RoutePolicy
      → Reply (List ExtensionField)
  unfolding decode_fields find_body_hash check_body_hash
  decode_extensions env limit claim request policy = do
    fields ← decode_fields env limit claim.extensions_raw
    check_body_hash env request policy.body_hash_policy (find_body_hash fields)
    accepted fields

  -- `runChecks` at a clock's reading.
  unfoldable pub run_checks :
      Environment State
      → PrepaidSigVerifierConfig
      → IncomingPaymentRequest
      → RoutePolicy
      → (now : ℕ) → Storage
      → Reply CheckedClaim
  unfolding parse_payment_headers parse_scheme_header lists decode_extensions normalize_identity_key
      is_blocked canonicalize is_signature_valid
  run_checks env config request policy now s = do
    claim ← header_verdict (parse_payment_headers env.lower request.headers)
    let (scheme, header_version) = parse_scheme_header claim.scheme
    demand (text_eq scheme scheme_verus_prepaid_sig) 402 VerifyErrorCode.unsupported_scheme
        (supported_schemes (scheme_verus_prepaid_sig ∷ []))
    let version = version_or_default header_version config.scheme_versions
    demand (lists config.scheme_versions version) 400 VerifyErrorCode.unsupported_scheme_version
        (supported_scheme_versions config.scheme_versions)
    demand (text_eq claim.amount policy.price_human) 402 VerifyErrorCode.price_mismatch
        (current_price policy.price_human)
    extensions ← decode_extensions env config.max_extensions_bytes claim request policy
    demand (not (is_out_of_window now claim.issued_at config.timestamp_tolerance_sec)) 400
        VerifyErrorCode.timestamp_out_of_window (tolerance_sec config.timestamp_tolerance_sec)
    let identity_key = normalize_identity_key env.lower env.trim claim.payer
    demand (not (is_blocked identity_key s)) 403 VerifyErrorCode.blocked no_details
    canonical ←
        checked_or_fail VerifyErrorCode.invalid_request
          (canonicalize (payload_of config request policy claim (or_empty version) extensions))
    signature_verdict (is_signature_valid env claim.payer claim.signature canonical)
    accepted (record { claim = claim; identity_key = identity_key; received_at = now })
