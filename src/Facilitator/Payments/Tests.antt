-- ===== src/Facilitator/Payments/Tests.antt =====
-- Runs of the payment API (packages/facilitator/src/api/payments.controller.ts) at small inputs.
use v.Base.{◌≡◌, refl, none}
use v.Base.Int.{neg, ◌+ℤ◌, ◌-ℤ◌}
use v.Base.Text.{text_eq}
use v.Base.Decimal.{decimal, decimal_fuel, read_digits}
use v.Base.Strings.{starts_with, ends_with, has_unit, includes, cut, split, join, all_units}
use v.Base.Dict.{get, set, has}
use v.Protocol.Amount.{is_valid_human_amount, pad_end, sats_of, human_to_sats, is_base64_signature}
use v.Protocol.Extensions.{all_words, is_kebab}
use v.Protocol.Canonical.{
  is_valid_ulid, is_scheme_version, is_method, is_network, is_line_safe, has_dot_segment,
  assert_path, check_payload, canonicalize,
}
use v.Protocol.Headers.{
  is_identity, by_name, single, read_extensions, parse_payment_headers, normalize_identity_key,
  parse_scheme_header,
}
use v.Storage.State.{
  append_ledger, find_entry, assert_balance_invariant, set_deposit_in, deposit_by_id_in,
}
use v.Storage.Requests.{reserve_payment, get_spent_request}
use v.Storage.Records.{is_blocked}
use v.Storage.Deposits.{deposit_key, insert_deposit, credit_deposit, insert_and_credit_deposit}
use v.Storage.History.{perform, run_calls}
use v.Storage.History.Invariants.{after, after-Solvent}
use v.Verifier.Types.{accepted}
use v.Verifier.Checks.{
  lists, find_body_hash, check_body_hash, decode_fields, decode_extensions, is_signature_valid,
  run_checks,
}
use v.Verifier.PrepaidSig.{reserve_checked, verify_and_reserve}
use v.Verifier.Samples.{funded, server, config, request, policy, receipt}
use v.Facilitator.Balance.{sats_text}
use v.Verifier.Registry.{verifier_of, supported_schemes_of}
use v.Facilitator.Payments.{
  PaymentRequestBody, prepaid_sig_verifier, reserve_answer, scheme_from_headers, verifier_for,
  post_reserve,
}
use v.Facilitator.Payments.Scheme.{NamesPrepaid}
use v.Facilitator.Payments.Charges.{prepaid_registry, Charges, post_reserve-Charges}
use v.Protocol.Types.{scheme_verus_prepaid_sig}

abbrev body : PaymentRequestBody
body = record {
  method = request.method;
  path = request.path;
  headers = request.headers;
  raw_body_base64 = none;
  policy = policy;
}

body-answered :
    (post_reserve server.from_base64
      (prepaid_registry (prepaid_sig_verifier server config 6 (λ s. s) (λ s. s)))
      (scheme_verus_prepaid_sig)
      body
      (after funded)).0
    ≡ accepted (reserve_answer receipt)
unfolding supported_schemes_of sats_text post_reserve verifier_for verifier_of scheme_from_headers
    run_calls perform reserve_payment insert_and_credit_deposit insert_deposit credit_deposit get
    set append_ledger find_entry assert_balance_invariant set_deposit_in deposit_by_id_in
    deposit_key text_eq ◌+ℤ◌ ◌-ℤ◌ has neg decimal decimal_fuel read_digits starts_with ends_with
    has_unit includes cut split join all_units is_valid_human_amount pad_end sats_of human_to_sats
    is_base64_signature all_words is_kebab is_valid_ulid is_scheme_version is_method is_network
    is_line_safe has_dot_segment assert_path check_payload canonicalize is_identity by_name single
    read_extensions parse_payment_headers normalize_identity_key parse_scheme_header
    get_spent_request is_blocked lists find_body_hash check_body_hash decode_fields
    decode_extensions is_signature_valid run_checks reserve_checked verify_and_reserve
body-answered = refl

post_reserve-Charges_example :
    NamesPrepaid scheme_verus_prepaid_sig body
    × Charges server config body 6
        (λ s. s)
        (λ s. s)
        (after funded)
        (reserve_answer receipt)
        (post_reserve server.from_base64
          (prepaid_registry (prepaid_sig_verifier server config 6 (λ s. s) (λ s. s)))
          (scheme_verus_prepaid_sig)
          body
          (after funded)).1
post_reserve-Charges_example =
    post_reserve-Charges server config (scheme_verus_prepaid_sig) body 6 (λ s. s) (λ s. s)
      (after funded) (reserve_answer receipt) (after-Solvent funded) body-answered
