-- ===== src/Client/Claim.antt =====
-- The server reads back the claim that the client's headers state: the header side of
-- packages/client-fetch/src/handshake.ts against packages/protocol/src/schemas.ts.
use v.Base.{ℕ, ◌≡◌, refl, Bool, true, false, ◌&&◌, none, [], ◌∷◌, leb}
use v.Base.Text.{Text, codes, text_eq}
use v.Base.Lists.{length}
use v.Base.Dict.{Dict, get, set}
use v.Base.Decimal.{decimal}
use v.Base.Numerals.{read_digits-decimal}
use v.Base.Strings.{ends_with, is_empty}
use v.Protocol.Types.{
  Checked, valid, invalid, ◌>>◌, require, V402ProtocolErrorCode, invalid_field, CanonicalPayload,
  PaymentClaim, PaymentRequirement, scheme_context_line,
}
use v.Protocol.Amount.{is_valid_human_amount, is_base64_signature}
use v.Protocol.Plain.{decimal-is_plain_integer}
use v.Protocol.Extensions.{is_kebab}
use v.Protocol.Canonical.{
  is_scheme_version, is_method, is_network, assert_line_safe, assert_path, is_line_safe,
  is_safe_integer, is_valid_ulid, check_payload, canonicalize, assert_identity,
}
use v.Protocol.Headers.{
  HeaderValue, one, parsed, header_scheme, header_payer, header_amount, header_request_id,
  header_issued_at, header_signature, header_extensions, is_identity, by_name, single,
  read_extensions, parse_payment_headers,
}
use v.Client.Types.{Surroundings}
use v.Client.Handshake.{PaymentFetchConfig, Call, payment_headers}

-- The lower-case names of the headers.
pub record LowersHeaders (lower : Text → Text) : Type 0 where
  pub scheme : lower header_scheme ≡ codes "x-v402-scheme"
  pub payer : lower header_payer ≡ codes "x-v402-payer"
  pub amount : lower header_amount ≡ codes "x-v402-amount"
  pub request_id : lower header_request_id ≡ codes "x-v402-request-id"
  pub issued_at : lower header_issued_at ≡ codes "x-v402-issued-at"
  pub signature : lower header_signature ≡ codes "x-v402-signature"
  pub extensions : lower header_extensions ≡ codes "x-v402-extensions"

-- A check that has passed, and the checks behind it.
require_inv :
    {A : Type 0} (b : Bool) (code : V402ProtocolErrorCode) (rest : Checked A) {a : A}
    → (require b code >> rest) ≡ valid a
    → (b ≡ true) × (rest ≡ valid a)
require_inv true code rest e = (refl, e)
require_inv false code rest e = absurd (cc e)

then_inv :
    {A : Type 0} (m : Checked (Unit {0})) (rest : Checked A) {a : A}
    → (m >> rest) ≡ valid a
    → (m ≡ valid tt) × (rest ≡ valid a)
then_inv (valid u) rest e = (refl, e)
then_inv (invalid code) rest e = absurd (cc e)

last_inv :
    (b : Bool) (code : V402ProtocolErrorCode) {u : Unit {0}} → require b code ≡ valid u → b ≡ true
last_inv true code e = refl
last_inv false code e = absurd (cc e)

identity_inv : (value : Text) → assert_identity value ≡ valid tt → is_identity value ≡ true
unfolding is_identity
identity_inv value e =
    let (safe, at) = require_inv (is_line_safe value) invalid_field _ e in
    rw safe (last_inv (ends_with b'@' value && leb 2 (length value)) invalid_field at)

-- What a payload that was canonicalized has passed, of what the headers carry.
abbrev pub IsSendable : CanonicalPayload → Type 0
IsSendable p =
    (is_valid_human_amount p.amount ≡ true)
    × (is_identity p.payer ≡ true)
    × (is_valid_ulid p.request_id ≡ true)
    × (is_safe_integer p.issued_at ≡ true)

check_payload-IsSendable : (p : CanonicalPayload) → check_payload p ≡ valid tt → IsSendable p
unfolding check_payload
check_payload-IsSendable p e0 =
    let (_, e1) = require_inv (is_kebab p.scheme) invalid_field _ e0 in
    let (_, e2) = require_inv (is_scheme_version p.scheme_version) invalid_field _ e1 in
    let (_, e3) = then_inv (assert_line_safe p.canonical_domain) _ e2 in
    let (_, e4) = require_inv (is_method p.method) invalid_field _ e3 in
    let (_, e5) = then_inv (assert_path p.path) _ e4 in
    let (_, e6) = require_inv (is_network p.network) invalid_field _ e5 in
    let (_, e7) = then_inv (assert_line_safe p.asset) _ e6 in
    let (amount, e8) = require_inv (is_valid_human_amount p.amount) invalid_field _ e7 in
    let (payer, e9) = then_inv (assert_identity p.payer) _ e8 in
    let (_, e10) = then_inv (assert_identity p.pay_to) _ e9 in
    let (id, e11) = require_inv (is_valid_ulid p.request_id) invalid_field _ e10 in
    (
      amount,
      identity_inv p.payer payer,
      id,
      last_inv (is_safe_integer p.issued_at) invalid_field e11,
    )

pub canonicalize-IsSendable :
    (p : CanonicalPayload) (text : Text) → canonicalize p ≡ valid text → IsSendable p
unfolding canonicalize
canonicalize-IsSendable p text e = check_payload-IsSendable p (then_inv (check_payload p) _ e).0

-- The claim that a request without extensions states.
abbrev pub stated_claim :
    PaymentFetchConfig
    → PaymentRequirement
    → (request_id : Text) (issued_at : ℕ) → Text
    → PaymentClaim
stated_claim config requirement request_id issued_at signature = record {
  scheme = scheme_context_line requirement.scheme requirement.scheme_version;
  payer = config.payer;
  amount = requirement.amount;
  request_id = request_id;
  issued_at = issued_at;
  signature = signature;
  extensions_raw = none;
}

scheme_line-not_empty : (a b : Text) → is_empty (scheme_context_line a b) ≡ false
scheme_line-not_empty [] b = refl
scheme_line-not_empty (c ∷ a) b = refl

module _ (lower : Text → Text) (l : LowersHeaders lower) (env : Surroundings)
    (config : PaymentFetchConfig) (call : Call) (requirement : PaymentRequirement)
    (request_id : Text) (issued_at : ℕ) (signature : Text) where
  -- The map of the headers by their lower-case names.
  abbrev received : Dict HeaderValue
  received =
      (
        codes "x-v402-scheme",
        one (scheme_context_line requirement.scheme requirement.scheme_version),
      )
      ∷ (codes "x-v402-payer", one config.payer)
      ∷ (codes "x-v402-amount", one requirement.amount)
      ∷ (codes "x-v402-request-id", one request_id)
      ∷ (codes "x-v402-issued-at", one (decimal issued_at))
      ∷ (codes "x-v402-signature", one signature)
      ∷ []

  by_name-received :
      by_name lower
        (payment_headers env config call requirement [] request_id issued_at signature)
        []
      ≡ received
  unfolding payment_headers by_name set text_eq
  by_name-received = rw (l.scheme, l.payer, l.amount, l.request_id, l.issued_at, l.signature) refl

  single-received :
      (single lower received header_scheme
        ≡ parsed (scheme_context_line requirement.scheme requirement.scheme_version))
      × (single lower received header_payer ≡ parsed config.payer)
      × (single lower received header_amount ≡ parsed requirement.amount)
      × (single lower received header_request_id ≡ parsed request_id)
      × (single lower received header_issued_at ≡ parsed (decimal issued_at))
      × (single lower received header_signature ≡ parsed signature)
      × (read_extensions lower received ≡ parsed none)
  unfolding single read_extensions get text_eq
  single-received = (
    rw l.scheme refl,
    rw l.payer refl,
    rw l.amount refl,
    rw l.request_id refl,
    rw l.issued_at refl,
    rw l.signature refl,
    rw l.extensions refl,
  )

  pub parse-payment_headers :
      is_valid_human_amount requirement.amount ≡ true
      → is_identity config.payer ≡ true
      → is_valid_ulid request_id ≡ true
      → is_safe_integer issued_at ≡ true
      → is_base64_signature signature ≡ true
      → parse_payment_headers lower
          (payment_headers env config call requirement [] request_id issued_at signature)
        ≡ parsed (stated_claim config requirement request_id issued_at signature)
  unfolding parse_payment_headers
  parse-payment_headers amount payer id seconds encoded =
      let (e1, e2, e3, e4, e5, e6, e7) = single-received in
      rw by_name-received (
        rw e1 (
          rw e2 (
            rw e3 (
              rw e4 (
                rw e5 (
                  rw e6 (
                    rw payer (
                      rw amount (
                        rw id (
                          rw (decimal-is_plain_integer issued_at) (
                            rw (read_digits-decimal issued_at) (
                              rw seconds (
                                rw encoded (
                                  rw
                                    (scheme_line-not_empty requirement.scheme
                                      requirement.scheme_version)
                                    (rw e7 refl)))))))))))))))
