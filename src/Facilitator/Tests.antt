-- ===== src/Facilitator/Tests.antt =====
-- Runs of the facilitator's services (packages/facilitator/src) at small inputs.
use v.Base.{true, ◌≡◌, ◌≢◌, ◌↔◌, refl, none, some, List, [], ◌∷◌, arith}
use v.Base.Int.{pos, neg, ◌+ℤ◌, ◌-ℤ◌}
use v.Base.Text.{Text, codes, text_eq}
use v.Base.Decimal.{decimal, decimal_fuel, read_digits}
use v.Base.Strings.{ends_with, cut, all_units, join}
use v.Base.Dict.{get, set, has, keys}
use v.Protocol.Types.{PaymentClaim}
use v.Protocol.Amount.{is_valid_human_amount, is_base64_signature}
use v.Protocol.Canonical.{
  is_valid_ulid, is_line_safe, is_network, check_query, canonicalize_ledger_query,
  canonicalize_balance_query,
}
use v.Protocol.Headers.{
  Headers, one, normalize_identity_key, parsed, is_identity, by_name, single, read_extensions,
  parse_payment_headers,
}
use v.Storage.Types.{
  IdentityRecord, DepositOrigin, InsertDepositInput, LedgerReason, BlockedIdentityRecord,
}
use v.Storage.State.{
  Storage, ok, empty_storage, append_ledger, find_entry, assert_balance_invariant, set_deposit_in,
  deposit_by_id_in,
}
use v.Storage.Requests.{
  reserve_payment, reap_one, cleanup_rows, cleanup_spent_requests, record_balance_query,
  get_identity, sum_reserved_sats, sum_reserved_in,
}
use v.Storage.Deposits.{
  deposit_key, insert_deposit, credit_deposit, insert_and_credit_deposit, sum_pending_deposit_sats,
  sum_pending_in,
}
use v.Storage.Records.{
  list_ledger_entries, block_identity, get_ledger_summary, summarize_from, list_identity_ids,
}
use v.Storage.History.{Call, mint, reserve, perform, run_calls}
use v.Storage.History.Invariants.{after, after-Solvent}
use v.Storage.Calls.Requests.{refunded}
use v.Verifier.Types.{accepted, answered}
use v.Verifier.Samples.{
  ulid, funded, held, pending, debtor, payment, server, config, request, policy, receipt,
}
use v.Verifier.PrepaidSig.{verify_and_reserve}
use v.Facilitator.Ledger.{
  answer, LedgerQuery, LedgerConfig, statement_of, check_query_request, ledger, read_query_headers,
  verify_query,
}
use v.Facilitator.Ledger.Ownership.{Shows, ledger-Shows}
use v.Facilitator.Ledger.Signed.{IsLedgerQuery}
use v.Facilitator.Reconciliation.{
  Awaits, check_identities, differences, cross_check, check_identity, reconcile,
}
use v.Facilitator.Balance.{BalanceView, Between, balance_view, check_balance_request, balance}
use v.Facilitator.Balance.Ownership.{Shows as ShowsBalance}
use v.Facilitator.Maintenance.{PaymentConfig, cleanup_horizon_sec, run_cleanup}
use v.Facilitator.Maintenance.Horizon.{purged_never_accepted, purged_is_reaped_first}
use v.Facilitator.Reconciliation.Clean.{Reconciles, check_identity_iff, reconcile-clean, IsCalm}

abbrev alice : Text
alice = codes "a@"

abbrev claim : PaymentClaim
claim = record {
  scheme = codes "verus-prepaid-sig/0.1";
  payer = alice;
  amount = codes "0.5";
  request_id = ulid;
  issued_at = 5;
  signature = codes "QUJD";
  extensions_raw = none;
}

abbrev coins : InsertDepositInput
coins = record {
  txid = codes "t";
  vout = 0;
  identity_id = alice;
  amount_sats = pos 50;
  currency = codes "V";
  block_height = 7;
  block_hash = codes "h";
  confirmations = pos 1;
  detected_at = 1;
  origin = DepositOrigin.simulated;
  created_by = none;
  note = none;
}

abbrev calls : List Call
calls = mint coins 2 ∷ []

-- Another call blocks an identity between the reads of an account and of its ledger.
abbrev blocker : BlockedIdentityRecord
blocker = record { identity_id = alice; blocked_at = 5; reason = none; blocked_by = none }

abbrev calm : Awaits
calm = record {
  listed = λ s. s;
  account_read = λ _ s. (block_identity blocker s).1;
  summary_read = λ _ s. s;
  node_asked = λ s. s;
  credits_read = λ s. s;
}

calm-IsCalm : IsCalm calm
unfolding block_identity
calm-IsCalm = record {
  listed = λ s h. h;
  account_read = λ n s h. h;
  summary_read = λ n s h. h;
  same_balance = λ n s id. refl;
}

reconcile-clean_example :
    ((reconcile (λ t. t) (λ _ _. []) calm none 5 6 (after calls)).0.mismatches ≡ 0)
    × ((reconcile (λ t. t) (λ _ _. []) calm none 5 6 (after calls)).0.detail ≡ [])
reconcile-clean_example = reconcile-clean (λ t. t) (λ _ _. []) calm none 5 6 calls calm-IsCalm

abbrev account : IdentityRecord
account = record {
  identity_id = alice;
  balance_sats = pos 5;
  created_at = 1;
  first_deposit_at = none;
  last_request_at = none;
}

-- A balance without a ledger.
abbrev forged : Storage
forged = record empty_storage { identities = (alice, account) ∷ [] }

forged-account : get alice forged.identities ≡ some account
unfolding get text_eq
forged-account = refl

check_identity_iff_example :
    ((check_identity (λ t. t) alice (λ s. s) (λ s. s) forged).0 ≡ [])
    ↔ Reconciles forged alice (pos 5)
check_identity_iff_example =
    check_identity_iff (λ t. t) (λ s. s) (λ s. s) forged alice account forged-account

-- A payment is reserved between the reads of an account and of its ledger: the storage is solvent
-- before and after, and the run reports a mismatch.
abbrev busy : Awaits
busy = record calm { account_read = λ _ s. (reserve_payment payment s).1 }

busy_run_mismatches : (reconcile (λ t. t) (λ _ _. []) busy none 5 6 (after funded)).0.mismatches ≡ 1
unfolding reconcile check_identities check_identity differences get_identity get_ledger_summary
    summarize_from list_identity_ids cross_check run_calls perform reserve_payment
    insert_and_credit_deposit insert_deposit credit_deposit get set append_ledger find_entry
    assert_balance_invariant set_deposit_in deposit_by_id_in deposit_key text_eq ◌+ℤ◌ ◌-ℤ◌ has neg
    decimal decimal_fuel keys
busy_run_mismatches = refl

abbrev durations : PaymentConfig
durations = record { reserve_ttl_sec = 300; timestamp_tolerance_sec = 300 }

held-row : get ulid (after held).spent_requests ≡ some pending
unfolding run_calls perform reserve_payment insert_and_credit_deposit insert_deposit credit_deposit
    get set append_ledger find_entry assert_balance_invariant set_deposit_in deposit_by_id_in
    deposit_key text_eq ◌+ℤ◌ ◌-ℤ◌ has neg decimal decimal_fuel
held-row = refl

held-account : get (codes "a@") (after held).identities ≡ some debtor
unfolding run_calls perform reserve_payment insert_and_credit_deposit insert_deposit credit_deposit
    get set append_ledger find_entry assert_balance_invariant set_deposit_in deposit_by_id_in
    deposit_key text_eq ◌+ℤ◌ ◌-ℤ◌ has neg decimal decimal_fuel
held-account = refl

held-purged : get ulid (run_cleanup durations 1000 (after held)).1.spent_requests ≡ none
unfolding run_calls perform reserve_payment insert_and_credit_deposit insert_deposit credit_deposit
    get set append_ledger find_entry assert_balance_invariant set_deposit_in deposit_by_id_in
    deposit_key text_eq ◌+ℤ◌ ◌-ℤ◌ has neg decimal decimal_fuel run_cleanup cleanup_horizon_sec
    cleanup_spent_requests cleanup_rows
held-purged = refl

request-parsed : parse_payment_headers (λ t. t) request.headers ≡ parsed claim
unfolding get set text_eq read_digits ends_with cut all_units is_valid_human_amount
    is_base64_signature is_valid_ulid is_line_safe is_identity by_name single read_extensions
    parse_payment_headers
request-parsed = refl

purged_never_accepted_example :
    (verify_and_reserve server config request policy 1000 (λ s. s) (λ s. s) (after funded)).0
    ≢ accepted receipt
purged_never_accepted_example =
    purged_never_accepted durations 1000 (after held) ulid pending held-row held-purged server
      config refl request policy claim request-parsed refl 1000 (omega arith) (λ s. s) (λ s. s)
      (after funded) receipt

purged_is_reaped_first_example :
    reap_one 700 1000 ulid (after held)
    ≡ (ok (ulid ∷ []), refunded LedgerReason.reaper_expired 1000 ulid pending debtor (after held))
purged_is_reaped_first_example =
    purged_is_reaped_first durations 1000 (after held) ulid pending debtor (after-Solvent held)
      held-row refl held-account refl held-purged

abbrev query_headers : Headers
query_headers =
    (codes "x-v402-payer", some (one alice))
    ∷ (codes "x-v402-request-id", some (one ulid))
    ∷ (codes "x-v402-issued-at", some (one (codes "5")))
    ∷ (codes "x-v402-signature", some (one (codes "QUJD")))
    ∷ []

abbrev query_config : LedgerConfig
query_config = record {
  canonical_domain = codes "x.org";
  chain = codes "vrsctest";
  tolerance = 300;
}

abbrev query : LedgerQuery
query = record {
  identity_key = alice;
  query_id = ulid;
  query_issued_at = 5;
  after_id = none;
  limit = 50;
}

query-answered :
    (ledger
      (λ t. t)
      (λ t. t)
      (λ _. none)
      (λ _ _ _ _. answered true)
      query_config
      query_headers
      none
      none
      6
      (λ s. s)
      (λ s. s)
      (after funded)).0
    ≡ answer (statement_of query (after funded))
unfolding ledger statement_of record_balance_query list_ledger_entries run_calls perform
    insert_and_credit_deposit insert_deposit credit_deposit get set append_ledger find_entry
    assert_balance_invariant set_deposit_in deposit_by_id_in deposit_key text_eq ◌+ℤ◌ ◌-ℤ◌ has neg
    decimal decimal_fuel read_digits ends_with all_units is_base64_signature is_valid_ulid
    is_line_safe is_network is_identity normalize_identity_key check_query canonicalize_ledger_query
    join check_query_request read_query_headers verify_query
query-answered = refl

ledger-Shows_example :
    (q : LedgerQuery) × IsLedgerQuery
      (λ t. t)
      (λ t. t)
      (λ _. none)
      (λ _ _ _ _. answered true)
      query_config
      query_headers
      6
      none
      none
      q
    × Shows q 6
        (λ s. s)
        (after funded)
        (statement_of query (after funded))
        (ledger
          (λ t. t)
          (λ t. t)
          (λ _. none)
          (λ _ _ _ _. answered true)
          query_config
          query_headers
          none
          none
          6
          (λ s. s)
          (λ s. s)
          (after funded)).1
ledger-Shows_example =
    ledger-Shows (λ t. t) (λ t. t) (λ _. none) (λ _ _ _ _. answered true) query_config query_headers
      none none 6 (λ s. s) (λ s. s) (after funded) (statement_of query (after funded))
      query-answered

-- While the handler waits, nothing else happens.
abbrev undisturbed : Between
undisturbed = record {
  verifying = λ s. s;
  recorded = λ s. s;
  account_read = λ s. s;
  reserved_read = λ s. s;
}

abbrev balance_headers : Headers
balance_headers =
    (codes "x-v402-payer", some (one alice))
    ∷ (codes "x-v402-request-id", some (one (codes "01234567890123456789012346")))
    ∷ (codes "x-v402-issued-at", some (one (codes "5")))
    ∷ (codes "x-v402-signature", some (one (codes "QUJD")))
    ∷ []

abbrev shown : BalanceView
shown = balance_view alice (some debtor) (pos 50000000) (pos 0)

-- A payment is reserved between the reads of the account and of the reserved sum.
abbrev reserving : Between
reserving = record undisturbed { account_read = λ s. run_calls (reserve payment ∷ []) s }

-- Its amount is then counted twice: of a deposit of 2, a balance of 2.5 is shown.
balance_counts_twice :
    (balance
      (λ t. t)
      (λ t. t)
      (λ _ _ _ _. answered true)
      query_config
      balance_headers
      6
      reserving
      (after funded)).0
    ≡ answer (balance_view alice (get_identity alice (after funded)) (pos 50000000) (pos 0))
unfolding balance record_balance_query run_calls perform get_identity sum_reserved_sats
    sum_pending_deposit_sats sum_reserved_in sum_pending_in insert_and_credit_deposit insert_deposit
    credit_deposit get set append_ledger find_entry assert_balance_invariant set_deposit_in
    deposit_by_id_in deposit_key text_eq ◌+ℤ◌ ◌-ℤ◌ has neg decimal decimal_fuel read_digits
    ends_with all_units is_base64_signature is_valid_ulid is_line_safe is_network is_identity
    normalize_identity_key check_query canonicalize_balance_query join check_balance_request
    read_query_headers verify_query reserve_payment
balance_counts_twice = refl
