-- ===== src/Facilitator/Balance.antt =====
-- The signed balance: packages/facilitator/src/api/balance.controller.ts. Its `reject` and `single` are
-- written as the ledger controller's, and so are its
-- guards (Facilitator.Ledger). Parameters: lower-casing and trimming, the
-- node's check of a signature, and what other calls do to the storage at each of the handler's awaits.
pub mod Ownership
use v.Base.{ℕ, suc, Bool, true, false, not, Option, none, some, [], ◌∷◌}
use v.Base.Int.{ℤ, pos, negsuc, ◌+ℤ◌}
use v.Base.Text.{Text, codes}
use v.Base.Decimal.{decimal, read_digits}
use v.Base.Dict.{get}
use v.Protocol.Types.{BalanceQueryPayload}
use v.Protocol.Amount.{is_plain_integer, is_base64_signature, sats_to_human}
use v.Protocol.Canonical.{is_valid_ulid, canonicalize_balance_query}
use v.Protocol.Headers.{Headers, is_identity, normalize_identity_key}
use v.Storage.Types.{IdentityRecord, RecordBalanceQueryInput, RecordBalanceQueryResult}
use v.Storage.State.{Storage, Result, ok, throw}
use v.Storage.Requests.{record_balance_query, get_identity, sum_reserved_sats}
use v.Storage.Deposits.{sum_pending_deposit_sats}
use v.Verifier.Types.{RpcAnswer}
use v.Verifier.Checks.{is_out_of_window}
use v.Facilitator.Ledger.{
  Answer, answer, rejected, protocol_error, storage_error, invalid_headers, timestamp_out_of_window,
  replay, ◌>>=◌, ◌>>◌, insist, single_or_reject, read_query_headers, verify_query,
  signature_or_reject, LedgerConfig,
}

-- `toString` of a bigint.
unfoldable pub sats_text : ℤ → Text
sats_text (pos n) = decimal n
sats_text (negsuc n) = b'-' ∷ decimal (suc n)

-- What the checks leave for the storage.
pub record BalanceQuery : Type 0 where
  pub identity_key : Text
  pub query_id : Text
  pub query_issued_at : ℕ

pub record BalanceView : Type 0 where
  pub identity : Text
  pub balance : Text
  pub reserved : Text
  pub available : Text
  pub pending : Text
  pub balance_sats : Text
  pub reserved_sats : Text
  pub available_sats : Text
  pub pending_sats : Text
  pub first_deposit_at : Option ℕ
  pub last_request_at : Option ℕ

-- What other calls do to the storage while the handler waits: for the node, and between its reads.
pub record Between : Type 0 where
  pub verifying : Storage → Storage
  pub recorded : Storage → Storage
  pub account_read : Storage → Storage
  pub reserved_read : Storage → Storage

-- `account?.balanceSats ?? 0n`
abbrev pub balance_or_zero : Option IdentityRecord → ℤ
balance_or_zero none = pos 0
balance_or_zero (some r) = r.balance_sats

abbrev pub first_deposit_of : Option IdentityRecord → Option ℕ
first_deposit_of none = none
first_deposit_of (some r) = r.first_deposit_at

abbrev pub last_request_of : Option IdentityRecord → Option ℕ
last_request_of none = none
last_request_of (some r) = r.last_request_at

unfoldable pub balance_view : Text → Option IdentityRecord → (reserved pending : ℤ) → BalanceView
unfolding sats_to_human sats_text ◌+ℤ◌
balance_view identity account reserved pending =
    let available = balance_or_zero account in
    record {
      identity = identity;
      balance = sats_to_human (available +ℤ reserved);
      reserved = sats_to_human reserved;
      available = sats_to_human available;
      pending = sats_to_human pending;
      balance_sats = sats_text (available +ℤ reserved);
      reserved_sats = sats_text reserved;
      available_sats = sats_text available;
      pending_sats = sats_text pending;
      first_deposit_at = first_deposit_of account;
      last_request_at = last_request_of account;
    }

abbrev pub balance_input : BalanceQuery → ℕ → RecordBalanceQueryInput
balance_input q now = record {
  request_id = q.query_id;
  identity_id = q.identity_key;
  issued_at = q.query_issued_at;
  received_at = now;
  method = codes "GET";
  path = codes "/v1/balance";
}

-- The three reads, with what other calls do before each of them.
abbrev pub read_balance : Text → Between → Storage → Answer BalanceView × Storage
read_balance key between s =
    let first = between.recorded s in
    let second = between.account_read first in
    let third = between.reserved_read second in
    (
      answer (
          balance_view key (get_identity key first) (sum_reserved_sats key second)
            (sum_pending_deposit_sats key third)),
      third,
    )

abbrev pub recorded_balance :
    BalanceQuery
    → Between
    → Result RecordBalanceQueryResult × Storage
    → Answer BalanceView × Storage
recorded_balance q between (ok RecordBalanceQueryResult.recorded, s) =
    read_balance q.identity_key between s
recorded_balance q between (ok (RecordBalanceQueryResult.replay status), s) =
    (rejected 409 (replay status), s)
recorded_balance q between (throw t, s) = (storage_error t, s)

abbrev pub answer_query : ℕ → Answer BalanceQuery → Between → Storage → Answer BalanceView × Storage
answer_query now (answer q) between s =
    recorded_balance q between (record_balance_query (balance_input q now) (between.verifying s))
answer_query now (rejected n code) between s = (rejected n code, s)
answer_query now (protocol_error code) between s = (protocol_error code, s)
answer_query now (storage_error t) between s = (storage_error t, s)

module _ (lower trim : Text → Text) (verify_message : Text → Text → Text → Bool → RpcAnswer Bool)
    (config : LedgerConfig) where
  unfoldable pub check_balance_request : Headers → (now : ℕ) → Answer BalanceQuery
  unfolding read_query_headers verify_query canonicalize_balance_query normalize_identity_key
      read_digits
  check_balance_request headers now = do
    h ← read_query_headers headers
    verify_query verify_message config canonicalize_balance_query h now
    answer (record {
      identity_key = normalize_identity_key lower trim h.payer;
      query_id = h.request_id;
      query_issued_at = read_digits 0 h.issued_at_raw;
    })

  unfoldable pub balance : Headers → (now : ℕ) → Between → Storage → Answer BalanceView × Storage
  unfolding check_balance_request record_balance_query get_identity sum_reserved_sats
      sum_pending_deposit_sats balance_view
  balance headers now between s = answer_query now (check_balance_request headers now) between s
