-- ===== src/Facilitator/Payments.antt =====
-- The payment API: packages/facilitator/src/api/payments.controller.ts, on bodies that dto.ts has parsed.
-- `throwVerifyError` answers with the error and its status: a handler's outcome is a verifier's Reply.
-- Metrics are left out. Parameters: lower-casing and the other strings' functions of the scheme.
pub mod Scheme
pub mod Charges
mod Tests
use v.Base.{ℕ, Bool, Option, none, some, List, [], ◌∷◌}
use v.Base.Int.{ℤ}
use v.Base.Text.{Text, codes}
use v.Base.Decimal.{decimal}
use v.Base.Dict.{Dict, get}
use v.Protocol.Types.{scheme_verus_prepaid_sig}
use v.Protocol.Headers.{Headers, HeaderValue, one, many, parse_scheme_header}
use v.Storage.State.{Storage}
use v.Verifier.Types.{
  IncomingPaymentRequest, RoutePolicy, VerifyErrorCode, supported_schemes, Reply, accepted, failed,
  protocol_thrown, storage_thrown, fail, Verified, Reserved, Committed, RolledBack,
  PrepaidSigVerifierConfig, Environment,
}
use v.Verifier.PrepaidSig
use v.Verifier.Registry.{verifier_of, supported_schemes_of}
use v.Facilitator.Balance.{sats_text}

pub record PaymentRequestBody : Type 0 where
  pub method : Text
  pub path : Text
  pub headers : Headers
  pub raw_body_base64 : Option Text
  pub policy : RoutePolicy

pub record CommitBody : Type 0 where
  pub request_id : Text
  pub response_bytes : ℕ
  pub scheme : Option Text

pub record RollbackBody : Type 0 where
  pub request_id : Text
  pub scheme : Option Text

-- The interface that the registry's verifiers implement, on the storage that they share.
pub record SchemeVerifier : Type 0 where
  pub verify : IncomingPaymentRequest → RoutePolicy → Storage → Reply Verified × Storage
  pub verify_and_reserve : IncomingPaymentRequest → RoutePolicy → Storage → Reply Reserved × Storage
  pub commit : Text → ℕ → Storage → Reply Committed × Storage
  pub rollback : Text → Storage → Reply RolledBack × Storage

pub record VerifyAnswer : Type 0 where
  pub request_id : Text
  pub payer : Text
  pub amount_sats : Text

pub record ReserveAnswer : Type 0 where
  pub request_id : Text
  pub payer : Text
  pub amount_sats : Text
  pub balance_after_sats : Text

pub record CommitAnswer : Type 0 where
  pub already_committed : Bool
  pub late : Bool
  pub balance_after_sats : Option Text

abbrev pub verify_answer : Verified → VerifyAnswer
verify_answer v = record {
  request_id = v.request_id;
  payer = v.payer;
  amount_sats = decimal v.amount_sats;
}

abbrev pub reserve_answer : Reserved → ReserveAnswer
reserve_answer r = record {
  request_id = r.verified.request_id;
  payer = r.verified.payer;
  amount_sats = decimal r.verified.amount_sats;
  balance_after_sats = sats_text r.balance_after_sats;
}

abbrev pub text_of_sats : Option ℤ → Option Text
text_of_sats none = none
text_of_sats (some n) = some (sats_text n)

abbrev pub commit_answer : Committed → CommitAnswer
commit_answer c = record {
  already_committed = c.already_committed;
  late = c.late;
  balance_after_sats = text_of_sats c.balance_after_sats;
}

-- The answer of a result, or what it throws.
abbrev pub reply_with : {A B : Type 0} → (A → B) → Reply A → Reply B
reply_with f (accepted a) = accepted (f a)
reply_with f (failed e) = failed e
reply_with f (protocol_thrown code) = protocol_thrown code
reply_with f (storage_thrown t) = storage_thrown t

abbrev pub decoded : (Text → List ℕ) → Option Text → Option (List ℕ)
decoded from_base64 none = none
decoded from_base64 (some raw) = some (from_base64 raw)

abbrev pub to_incoming_request : (Text → List ℕ) → PaymentRequestBody → IncomingPaymentRequest
to_incoming_request from_base64 body = record {
  method = body.method;
  path = body.path;
  headers = body.headers;
  raw_body = decoded from_base64 body.raw_body_base64;
}

-- `value[0]` of a repeated header.
abbrev pub first_value : Option (Option HeaderValue) → Option Text
first_value (some (some (one value))) = some value
first_value (some (some (many (value ∷ _)))) = some value
first_value _ = none

-- `a ?? b` on a header's two spellings, where an entry without a value is a missing one.
abbrev pub first_spelling :
    Option (Option HeaderValue) → Option (Option HeaderValue) → Option (Option HeaderValue)
first_spelling (some (some value)) other = some (some value)
first_spelling _ other = other

unfoldable pub scheme_from_headers : Headers → Option Text
unfolding get
scheme_from_headers headers =
    first_value
      (first_spelling (get (codes "x-v402-scheme") headers) (get (codes "X-V402-Scheme") headers))

abbrev pub or_default_scheme : Text → Option Text → Text
or_default_scheme default none = default
or_default_scheme default (some value) = value

-- A handler of a verifier that is found, or the answer that the scheme is not supported.
abbrev pub with_verifier :
    {A : Type 0}
    → Dict SchemeVerifier
    → Option SchemeVerifier
    → (SchemeVerifier → Storage → Reply A × Storage)
    → Storage
    → Reply A × Storage
with_verifier registry (some verifier) run s = run verifier s
with_verifier registry none run s = (
  fail 402 VerifyErrorCode.unsupported_scheme (supported_schemes (supported_schemes_of registry)),
  s,
)

abbrev pub answered_with : {A B : Type 0} → (A → B) → Reply A × Storage → Reply B × Storage
answered_with f (reply, s) = (reply_with f reply, s)

module _ (from_base64 : Text → List ℕ) (registry : Dict SchemeVerifier)
    (default_scheme : Text) where
  unfoldable pub verifier_for : Option Text → Option SchemeVerifier
  unfolding parse_scheme_header verifier_of
  verifier_for value =
      verifier_of (parse_scheme_header (or_default_scheme default_scheme value)).0 registry

  unfoldable pub post_verify : PaymentRequestBody → Storage → Reply VerifyAnswer × Storage
  unfolding verifier_for scheme_from_headers supported_schemes_of sats_text decimal
  post_verify body s =
      with_verifier registry (verifier_for (scheme_from_headers body.headers))
        (λ verifier t.
          answered_with verify_answer
            (verifier.verify (to_incoming_request from_base64 body) body.policy t))
        s

  unfoldable pub post_reserve : PaymentRequestBody → Storage → Reply ReserveAnswer × Storage
  unfolding verifier_for scheme_from_headers supported_schemes_of sats_text decimal
  post_reserve body s =
      with_verifier registry (verifier_for (scheme_from_headers body.headers))
        (λ verifier t.
          answered_with reserve_answer
            (verifier.verify_and_reserve (to_incoming_request from_base64 body) body.policy t))
        s

  unfoldable pub post_commit : CommitBody → Storage → Reply CommitAnswer × Storage
  unfolding verifier_for supported_schemes_of sats_text
  post_commit body s =
      with_verifier registry (verifier_for body.scheme)
        (λ verifier t.
          answered_with commit_answer (verifier.commit body.request_id body.response_bytes t))
        s

  unfoldable pub post_rollback : RollbackBody → Storage → Reply RolledBack × Storage
  unfolding verifier_for supported_schemes_of
  post_rollback body s =
      with_verifier registry (verifier_for body.scheme)
        (λ verifier t. verifier.rollback body.request_id t) s

-- The registered implementation, at a time and with what other calls do at its awaits.
abbrev pub prepaid_sig_verifier :
    {State : Type 0}
    → Environment State
    → PrepaidSigVerifierConfig
    → (now : ℕ) → (before meanwhile : Storage → Storage) → SchemeVerifier
prepaid_sig_verifier env config now before meanwhile = record {
  verify = λ request policy s. (PrepaidSig.verify env config request policy now s, s);
  verify_and_reserve = λ request policy s.
      PrepaidSig.verify_and_reserve env config request policy now before meanwhile s;
  commit = λ request_id bytes s. PrepaidSig.commit request_id bytes now meanwhile s;
  rollback = λ request_id s. PrepaidSig.rollback request_id now s;
}
