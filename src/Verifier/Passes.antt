-- ===== src/Verifier/Passes.antt =====
-- What an accepted request has passed (`runChecks` of packages/verifier/src/prepaid-sig.ts).
use v.Base.{ℕ, ◌≡◌, refl, Bool, true, false, not, List}
use mathlib.Core.Path.{subst}
use v.Base.Text.{Text, text_eq, text_eq_iff}
use v.Protocol.Types.{
  Checked, valid, invalid, PaymentClaim, ExtensionField, scheme_verus_prepaid_sig,
}
use v.Protocol.Canonical.{canonicalize}
use v.Protocol.Headers.{
  Parsed, parsed, refused, parse_payment_headers, normalize_identity_key, parse_scheme_header,
}
use v.Storage.State.{Storage}
use v.Storage.Records.{is_blocked}
use v.Verifier.Types.{
  IncomingPaymentRequest, RoutePolicy, VerifyErrorCode, Details, Reply, accepted, failed,
  protocol_thrown, storage_thrown, CheckedClaim, PrepaidSigVerifierConfig, RpcAnswer, answered,
  unavailable, app_error, Environment,
}
use v.Verifier.Checks.{
  ◌>>=◌, demand, lists, version_or_default, or_empty, payload_of, is_out_of_window,
  signature_verdict, header_verdict, checked_or_fail, is_signature_valid, decode_extensions,
  run_checks,
}

-- An accepted sequence has an accepted first part, and an accepted rest.
pub bind_inv :
    {A B : Type 0} (m : Reply A) (f : A → Reply B) {b : B}
    → (m >>= f) ≡ accepted b
    → (a : A) × (m ≡ accepted a) × (f a ≡ accepted b)
bind_inv (accepted a) f e = (a, refl, e)
bind_inv (failed x) f e = absurd (cc e)
bind_inv (protocol_thrown x) f e = absurd (cc e)
bind_inv (storage_thrown x) f e = absurd (cc e)

demand_inv :
    {B : Type 0} (test : Bool) (n : ℕ) (code : VerifyErrorCode) (d : Details)
    (f : Unit {0} → Reply B) {b : B}
    → (demand test n code d >>= f) ≡ accepted b
    → (test ≡ true) × (f tt ≡ accepted b)
demand_inv true n code d f e = (refl, e)
demand_inv false n code d f e = absurd (cc e)

header_inv :
    {B : Type 0} (p : Parsed PaymentClaim) (f : PaymentClaim → Reply B) {b : B}
    → (header_verdict p >>= f) ≡ accepted b
    → (c : PaymentClaim) × (p ≡ parsed c) × (f c ≡ accepted b)
header_inv (parsed c) f e = (c, refl, e)
header_inv (refused x) f e = absurd (cc e)

checked_inv :
    {A B : Type 0} (r : Checked A) (code : VerifyErrorCode) (f : A → Reply B) {b : B}
    → (checked_or_fail code r >>= f) ≡ accepted b
    → (a : A) × (r ≡ valid a) × (f a ≡ accepted b)
checked_inv (valid a) code f e = (a, refl, e)
checked_inv (invalid x) code f e = absurd (cc e)

signature_inv :
    {B : Type 0} (r : RpcAnswer Bool) (f : Unit {0} → Reply B) {b : B}
    → (signature_verdict r >>= f) ≡ accepted b
    → (r ≡ answered true) × (f tt ≡ accepted b)
signature_inv (answered true) f e = (refl, e)
signature_inv (answered false) f e = absurd (cc e)
signature_inv unavailable f e = absurd (cc e)
signature_inv app_error f e = absurd (cc e)

pub accepted_inj : {A : Type 0} {a b : A} → accepted a ≡ accepted b → a ≡ b
accepted_inj e = cc

not_inv : (b : Bool) → not b ≡ true → b ≡ false
not_inv true e = absurd (cc e)
not_inv false e = refl

module _ {State : Type 0} (env : Environment State) (config : PrepaidSigVerifierConfig) where
  -- The claim of the headers names the scheme in an enabled version and the current price, its time
  -- is in the window, its identity is not blocked, and its signature is good for the text that the
  -- server builds from its own configuration and the request.
  abbrev pub Passes : IncomingPaymentRequest → RoutePolicy → ℕ → Storage → CheckedClaim → Type 0
  Passes request policy now s checked =
      let claim = checked.claim in
      let version =
        version_or_default (parse_scheme_header claim.scheme).1 config.scheme_versions in
      (parse_payment_headers env.lower request.headers ≡ parsed claim)
      × ((parse_scheme_header claim.scheme).0 ≡ scheme_verus_prepaid_sig)
      × (lists config.scheme_versions version ≡ true)
      × (claim.amount ≡ policy.price_human)
      × (is_out_of_window now claim.issued_at config.timestamp_tolerance_sec ≡ false)
      × (checked.identity_key ≡ normalize_identity_key env.lower env.trim claim.payer)
      × (is_blocked checked.identity_key s ≡ false)
      × (checked.received_at ≡ now)
      × ((extensions : List ExtensionField) × (canonical : Text) × (decode_extensions env
              config.max_extensions_bytes claim request policy
            ≡ accepted extensions)
          × (canonicalize (payload_of config request policy claim (or_empty version) extensions)
              ≡ valid canonical)
          × (is_signature_valid env claim.payer claim.signature canonical ≡ answered true))

  pub run_checks-Passes :
      (request : IncomingPaymentRequest) (policy : RoutePolicy) (now : ℕ) (s : Storage)
      (checked : CheckedClaim)
      → run_checks env config request policy now s ≡ accepted checked
      → Passes request policy now s checked
  unfolding run_checks
  run_checks-Passes request policy now s checked e =
      let (claim, e1, r1) = header_inv (parse_payment_headers env.lower request.headers) _ e in
      let scheme = (parse_scheme_header claim.scheme).0 in
      let version =
        version_or_default (parse_scheme_header claim.scheme).1 config.scheme_versions in
      let (e2, r2) = demand_inv (text_eq scheme scheme_verus_prepaid_sig) _ _ _ _ r1 in
      let (e3, r3) = demand_inv (lists config.scheme_versions version) _ _ _ _ r2 in
      let (e4, r4) = demand_inv (text_eq claim.amount policy.price_human) _ _ _ _ r3 in
      let (extensions, e5, r5) =
        bind_inv (decode_extensions env config.max_extensions_bytes claim request policy) _ r4 in
      let (e6, r6) =
        demand_inv (not (is_out_of_window now claim.issued_at config.timestamp_tolerance_sec)) _ _ _
          _ r5 in
      let key = normalize_identity_key env.lower env.trim claim.payer in
      let (e7, r7) = demand_inv (not (is_blocked key s)) _ _ _ _ r6 in
      let (canonical, e8, r8) =
        checked_inv
          (canonicalize (payload_of config request policy claim (or_empty version) extensions)) _ _
          r7 in
      let (e9, r9) =
        signature_inv (is_signature_valid env claim.payer claim.signature canonical) _ r8 in
      subst (Passes request policy now s) (accepted_inj r9) (
        e1,
        (text_eq_iff scheme scheme_verus_prepaid_sig).0 e2,
        e3,
        (text_eq_iff claim.amount policy.price_human).0 e4,
        not_inv (is_out_of_window now claim.issued_at config.timestamp_tolerance_sec) e6,
        refl,
        not_inv (is_blocked key s) e7,
        refl,
        (extensions, canonical, e5, e8, e9),
      )
