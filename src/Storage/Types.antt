-- ===== src/Storage/Types.antt =====
-- The records and results of packages/storage/src/types.ts. Amounts are `bigint`, so ℤ;
-- timestamps are Unix seconds, so ℕ; an optional field is an `Option`.
use v.Base.{ℕ, Bool, Option}
use v.Base.Int.{ℤ}
use v.Base.Text.{Text}

pub record IdentityRecord : Type 0 where
  pub identity_id : Text
  pub balance_sats : ℤ
  pub created_at : ℕ
  pub first_deposit_at : Option ℕ
  pub last_request_at : Option ℕ

pub data SpentRequestStatus : Type 0 where
  reserved committed error insufficient blocked expired : SpentRequestStatus

pub record SpentRequestRecord : Type 0 where
  pub request_id : Text
  pub identity_id : Text
  pub issued_at : ℕ
  pub received_at : ℕ
  pub amount_sats : ℤ
  pub method : Text
  pub path : Text
  pub status : SpentRequestStatus
  pub response_bytes : Option ℕ

pub data DepositOrigin : Type 0 where
  real simulated : DepositOrigin

pub record InsertDepositInput : Type 0 where
  pub identity_id : Text
  pub amount_sats : ℤ
  pub currency : Text
  pub txid : Text
  pub vout : ℕ
  pub block_height : ℕ
  pub block_hash : Text
  pub confirmations : ℤ
  pub detected_at : ℕ
  pub origin : DepositOrigin
  pub created_by : Option Text
  pub note : Option Text

-- The columns that the caller gives, and the three that the storage keeps.
pub record DepositRecord : Type 0 where
  pub id : ℕ
  pub input : InsertDepositInput
  pub open input use *
  pub credited_at : Option ℕ
  pub reorged_at : Option ℕ

pub data LedgerKind : Type 0 where
  deposit debit refund reorg_adjust : LedgerKind

pub data LedgerReason : Type 0 where
  reserve commit late_commit rollback reaper_expired deposit_credited reorg : LedgerReason

pub record LedgerEntry : Type 0 where
  pub id : ℕ
  pub identity_id : Text
  pub kind : LedgerKind
  pub reason : LedgerReason
  pub amount_sats : ℤ
  pub request_id : Option Text
  pub deposit_id : Option ℕ
  pub balance_after_sats : ℤ
  pub created_at : ℕ

pub record BlockedIdentityRecord : Type 0 where
  pub identity_id : Text
  pub reason : Option Text
  pub blocked_at : ℕ
  pub blocked_by : Option Text

pub record WatcherCursor : Type 0 where
  pub last_block : ℕ
  pub last_block_hash : Text
  pub updated_at : ℕ

pub record ReconciliationRun : Type 0 where
  pub id : ℕ
  pub run_at : ℕ
  pub identities_checked : ℕ
  pub mismatches : ℕ
  pub detail_json : Option Text
  pub duration_ms : ℕ

pub record ReservePaymentInput : Type 0 where
  pub request_id : Text
  pub identity_id : Text
  pub issued_at : ℕ
  pub received_at : ℕ
  pub amount_sats : ℤ
  pub method : Text
  pub path : Text

pub data ReservePaymentResult : Type 0 where
  reserved : (balance_after_sats : ℤ) → ReservePaymentResult
  replay : (previous_status : SpentRequestStatus) → ReservePaymentResult
  insufficient : (balance_sats : ℤ) → ReservePaymentResult
  unknown_identity : ReservePaymentResult

pub data ConditionalUpdateResult : Type 0 where
  done : ConditionalUpdateResult
  not_done : (current_status : Option SpentRequestStatus) → ConditionalUpdateResult

pub data LateCommitResult : Type 0 where
  done : (balance_after_sats : ℤ) → LateCommitResult
  not_done : (current_status : Option SpentRequestStatus) → LateCommitResult

pub record RecordBalanceQueryInput : Type 0 where
  pub request_id : Text
  pub identity_id : Text
  pub issued_at : ℕ
  pub received_at : ℕ
  pub method : Text
  pub path : Text

pub data RecordBalanceQueryResult : Type 0 where
  recorded : RecordBalanceQueryResult
  replay : (previous_status : SpentRequestStatus) → RecordBalanceQueryResult

pub data CreditFailure : Type 0 where
  not_found already_credited reorged : CreditFailure

pub data CreditDepositResult : Type 0 where
  done : (balance_after_sats : ℤ) (identity_created : Bool) → CreditDepositResult
  not_done : CreditFailure → CreditDepositResult

pub record InsertAndCreditResult : Type 0 where
  pub deposit : DepositRecord
  pub balance_after_sats : ℤ
  pub identity_created : Bool

pub data ReorgFailure : Type 0 where
  not_found already_reorged : ReorgFailure

pub data MarkReorgedResult : Type 0 where
  done : (was_credited : Bool) (balance_after_sats : Option ℤ) → MarkReorgedResult
  not_done : ReorgFailure → MarkReorgedResult

pub record LedgerSummary : Type 0 where
  pub entry_count : ℕ
  pub sum_sats : ℤ
  pub latest_balance_after_sats : Option ℤ

-- What a method may throw: `StorageError`, or a plain `Error`.
pub data Thrown : Type 0 where
  duplicate_deposit : (key : Text) → Thrown
  solvency_violated : (identity_id : Text) → Thrown
  credit_failed : CreditFailure → Thrown
