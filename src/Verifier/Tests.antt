-- ===== src/Verifier/Tests.antt =====
-- Runs of the prepaid-signature scheme (packages/verifier/src/prepaid-sig.ts) at a small request.
use v.Base.{ℕ, ◌<◌, ◌≤◌, ◌≡◌, refl, true, false, none, some, [], ◌∷◌, arith, ◌≢◌}
use v.Base.Int.{neg, ◌+ℤ◌, ◌-ℤ◌}
use v.Base.Text.{text_eq, Text, codes}
use v.Base.Decimal.{decimal, decimal_fuel, read_digits}
use v.Base.Strings.{starts_with, ends_with, has_unit, includes, cut, split, join, all_units}
use v.Base.Dict.{get, set, has}
use v.Protocol.Types.{valid, BalanceQueryPayload, balance_query_context}
use v.Protocol.Amount.{is_valid_human_amount, pad_end, sats_of, human_to_sats, is_base64_signature}
use v.Protocol.Extensions.{all_words, is_kebab}
use v.Protocol.Canonical.{
  is_valid_ulid, is_scheme_version, is_method, is_network, is_line_safe, has_dot_segment,
  assert_path, check_payload, canonicalize, query_lines, check_query, canonicalize_balance_query,
  canonicalize_ledger_query,
}
use v.Protocol.Headers.{
  is_identity, by_name, single, read_extensions, parse_payment_headers, normalize_identity_key,
  parse_scheme_header,
}
use v.Storage.State.{
  append_ledger, find_entry, assert_balance_invariant, set_deposit_in, deposit_by_id_in,
}
use v.Storage.Requests.{reserve_payment, commit_payment, rollback_payment, get_spent_request}
use v.Storage.Records.{is_blocked}
use v.Storage.Deposits.{deposit_key, insert_deposit, credit_deposit, insert_and_credit_deposit}
use v.Storage.History.{perform, run_calls}
use v.Storage.History.Invariants.{after, after-Solvent}
use v.Verifier.Types.{
  Reserved, VerifyErrorCode, no_details, accepted, fail, CheckedClaim, VerifyError, failed,
}
use v.Verifier.Checks.{
  lists, find_body_hash, check_body_hash, decode_fields, decode_extensions, is_signature_valid,
  run_checks,
}
use v.Verifier.PrepaidSig.{
  reserve_checked, verify_and_reserve, commit, rollback, existing_row, verify,
}
use v.Verifier.Samples.{alice, ulid, funded, held, server, config, request, policy, receipt}
use v.Verifier.Passes.{Passes}
use v.Verifier.Payment.{Pays, accepted-Pays}
use v.Base.Lists.{length}
use v.Verifier.IdentityCache.{
  IdentityCacheEvent, CachedIdentityProviderOptions, options_of, served, get_identity_state,
  refresh_identity_state, fetched,
}
use v.Verifier.IdentityCache.Limits.{
  got, arrived, empty_cache, run_cache, cache_is_bounded, fetched_is_served,
}
use v.Protocol.Separation.{queries_are_separate}
use v.Verifier.Agreement.{verify_agrees}
use v.Verifier.Settling.{commit_is_settled, rollback_is_settled}

request-accepted :
    (verify_and_reserve server config request policy 6 (λ s. s) (λ s. s) (after funded)).0
    ≡ accepted receipt
unfolding run_calls perform reserve_payment insert_and_credit_deposit insert_deposit credit_deposit
    get set append_ledger find_entry assert_balance_invariant set_deposit_in deposit_by_id_in
    deposit_key text_eq ◌+ℤ◌ ◌-ℤ◌ has neg decimal decimal_fuel read_digits starts_with ends_with
    has_unit includes cut split join all_units is_valid_human_amount pad_end sats_of human_to_sats
    is_base64_signature all_words is_kebab is_valid_ulid is_scheme_version is_method is_network
    is_line_safe has_dot_segment assert_path check_payload canonicalize is_identity by_name single
    read_extensions parse_payment_headers normalize_identity_key parse_scheme_header
    get_spent_request is_blocked lists find_body_hash check_body_hash decode_fields
    decode_extensions is_signature_valid run_checks reserve_checked verify_and_reserve
request-accepted = refl

accepted-Pays_example :
    (checked : CheckedClaim) × Passes server config request policy 6 (after funded) checked
    × ((sats : ℕ) × (human_to_sats policy.price_human ≡ valid sats)
        × Pays config request checked sats
            (after funded)
            receipt
            (verify_and_reserve server config request policy 6 (λ s. s) (λ s. s) (after funded)).1)
accepted-Pays_example =
    accepted-Pays server config request policy 6 (λ s. s) (λ s. s) (after funded) receipt
      (after-Solvent funded) request-accepted

commit-accepted :
    (commit ulid 9 7 (λ s. s) (after held)).0
    ≡ accepted (record { already_committed = false; late = false; balance_after_sats = none })
unfolding run_calls perform reserve_payment insert_and_credit_deposit insert_deposit credit_deposit
    get set append_ledger find_entry assert_balance_invariant set_deposit_in deposit_by_id_in
    deposit_key text_eq ◌+ℤ◌ ◌-ℤ◌ has neg decimal decimal_fuel commit commit_payment
commit-accepted = refl

commit_is_settled_example :
    let t = (commit ulid 9 7 (λ s. s) (after held)).1 in
    (commit ulid 10 8 (λ s. s) t ≡ (
      accepted (record { already_committed = true; late = false; balance_after_sats = none }),
      t,
    ))
    × (rollback ulid 8 t ≡ (fail 409 VerifyErrorCode.invalid_state no_details, t))
commit_is_settled_example =
    commit_is_settled ulid 9 7 (λ s. s) (after held)
      (record { already_committed = false; late = false; balance_after_sats = none })
      (after-Solvent held) commit-accepted 10 8 (λ s. s)

rollback-accepted :
    (rollback ulid 7 (after held)).0 ≡ accepted (record { already_rolled_back = false })
unfolding run_calls perform reserve_payment insert_and_credit_deposit insert_deposit credit_deposit
    get set append_ledger find_entry assert_balance_invariant set_deposit_in deposit_by_id_in
    deposit_key text_eq ◌+ℤ◌ ◌-ℤ◌ has neg decimal decimal_fuel rollback rollback_payment
rollback-accepted = refl

rollback_is_settled_example :
    rollback ulid 8 (rollback ulid 7 (after held)).1
    ≡ (accepted (record { already_rolled_back = true }), (rollback ulid 7 (after held)).1)
rollback_is_settled_example =
    rollback_is_settled ulid 7 (after held) (record { already_rolled_back = false })
      (after-Solvent held) rollback-accepted 8

abbrev limits : CachedIdentityProviderOptions
limits = options_of none none (some 1)

cache_is_bounded_example :
    length
      (run_cache limits
        (got 1 alice ∷ arrived 2 alice true ∷ arrived 3 ulid false ∷ [])
        empty_cache).cache
    ≤ 1
cache_is_bounded_example =
    cache_is_bounded limits (got 1 alice ∷ arrived 2 alice true ∷ arrived 3 ulid false ∷ [])
      (omega arith)

fetched_is_served_example :
    let d = fetched limits 2 alice true empty_cache in
    ((later : ℕ)
      → later < 62
      → get_identity_state limits later alice d ≡ (served true IdentityCacheEvent.hit, d))
    × ((later : ℕ)
        → later < 7
        → refresh_identity_state limits later alice d
          ≡ (served true IdentityCacheEvent.refresh_suppressed, d))
fetched_is_served_example = fetched_is_served limits 2 alice true empty_cache

verify_agrees_example :
    ((r : Reserved)
      → (verify_and_reserve server config request policy 6 (λ s. s) (λ s. s) (after funded)).0
        ≡ accepted r
      → verify server config request policy 6 (after funded) ≡ accepted r.verified)
    × ((e : VerifyError)
        → existing_row (parse_payment_headers server.lower request.headers) (after funded) ≡ none
        → verify server config request policy 6 (after funded) ≡ failed e
        → verify_and_reserve server config request policy 6 (λ s. s) (λ s. s) (after funded)
          ≡ (failed e, after funded))
verify_agrees_example =
    verify_agrees server config request policy 6 (λ s. s) (λ s. s) (after funded)

abbrev balance_query : BalanceQueryPayload
balance_query = record {
  canonical_domain = codes "x.org";
  network = codes "vrsctest";
  payer = alice;
  request_id = ulid;
  issued_at = 5;
}

abbrev balance_text : Text
balance_text = join b'\n' (query_lines balance_query_context balance_query)

balance_query-text : canonicalize_balance_query balance_query ≡ valid balance_text
unfolding canonicalize_balance_query check_query is_line_safe all_units is_network is_valid_ulid
    ends_with join decimal decimal_fuel
balance_query-text = refl

queries_are_separate_example : canonicalize_ledger_query balance_query ≢ valid balance_text
queries_are_separate_example =
    queries_are_separate balance_query balance_query balance_text balance_query-text
