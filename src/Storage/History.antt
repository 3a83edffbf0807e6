-- ===== src/Storage/History.antt =====
-- Every sequence of calls of the storage's methods that change it
-- (packages/storage/src/interface.ts).
pub mod Invariants
use v.Base.{Bool, true, false, inl, inr, ℕ, ◌≡◌, refl, Option, none, some, List, [], ◌∷◌, sym}
use mathlib.Core.Path.{subst}
use v.Base.Int.{ℤ, ◌+ℤ◌}
use v.Base.Text.{Text}
use v.Storage.Types.{
  DepositRecord, ReservePaymentInput, RecordBalanceQueryInput, InsertDepositInput,
  BlockedIdentityRecord, WatcherCursor, ReconciliationRun, Thrown, duplicate_deposit,
  solvency_violated, credit_failed,
}
use v.Base.Dict.{get}
use v.Base.Sums.{sum_by}
use v.Storage.State.{Storage, find_entry, empty_storage, Result, ok, throw}
use v.Storage.Requests.{
  reserve_payment, commit_payment, rollback_payment, late_commit_payment, reap_expired_reservations,
  cleanup_spent_requests, record_balance_query,
}
use v.Storage.Deposits.{
  deposit_key, insert_deposit, RemineUpdate, remine_deposit, update_deposit_confirmations,
  credit_deposit, insert_and_credit_deposit, mark_deposit_reorged,
}
use v.Storage.Records.{
  block_identity, unblock_identity, set_watcher_cursor, record_reconciliation_run,
}
use v.Storage.Solvency.{sum_entries}
use v.Storage.Step.Funded.{Funded, Steps-Funded}
use v.Storage.Step.Accounts.{IsAccounted}
use v.Storage.Step.Accounts.Kept.{Steps-IsAccounted}
use v.Storage.Step.{Steps, here, Steps-trans}
use v.Storage.Step.Solvent.{Solvent, Steps-Solvent}
use v.Storage.Step.Deposits.{Numbered, Steps-Numbered}
use v.Storage.Refine.{Refines, Completes}
use v.Storage.Refine.Deposits.{IsTidyRemine}

-- The methods of `IStorage` that write.
pub data Call : Type 0 where
  reserve : ReservePaymentInput → Call
  commit : (request_id : Text) (response_bytes at : ℕ) → Call
  rollback : (request_id : Text) (at : ℕ) → Call
  late_commit : (request_id : Text) (response_bytes at : ℕ) → Call
  reap : (cutoff_received_at at : ℕ) → Call
  cleanup : (cutoff_issued_at : ℕ) → Call
  balance_query : RecordBalanceQueryInput → Call
  insert : InsertDepositInput → Call
  remine : (txid : Text) (vout : ℕ) → RemineUpdate → Call
  confirm : (id : ℕ) (confirmations : ℤ) → Call
  credit : (id credited_at : ℕ) → Call
  mint : InsertDepositInput → (credited_at : ℕ) → Call
  reorg : (id reorged_at : ℕ) → Call
  block : BlockedIdentityRecord → Call
  unblock : Text → Call
  set_cursor : Text → WatcherCursor → Call
  record_run : ReconciliationRun → Call

-- What a call threw, and the storage that it left.
abbrev pub settle : {A : Type 0} → Result A × Storage → Option Thrown × Storage
settle (ok _, s) = (none, s)
settle (throw t, s) = (some t, s)

unfoldable pub perform : Call → Storage → Option Thrown × Storage
perform (reserve input) s = settle (reserve_payment input s)
perform (commit k bytes at) s = settle (commit_payment k bytes at s)
perform (rollback k at) s = settle (rollback_payment k at s)
perform (late_commit k bytes at) s = settle (late_commit_payment k bytes at s)
perform (reap cutoff at) s = settle (reap_expired_reservations cutoff at s)
perform (cleanup cutoff) s = settle (cleanup_spent_requests cutoff s)
perform (balance_query input) s = settle (record_balance_query input s)
perform (insert input) s = settle (insert_deposit input s)
perform (remine txid vout update) s = settle (remine_deposit txid vout update s)
perform (confirm id n) s = settle (update_deposit_confirmations id n s)
perform (credit id at) s = settle (credit_deposit id at s)
perform (mint input at) s = settle (insert_and_credit_deposit input at s)
perform (reorg id at) s = settle (mark_deposit_reorged id at s)
perform (block r) s = settle (block_identity r s)
perform (unblock id) s = settle (unblock_identity id s)
perform (set_cursor key c) s = settle (set_watcher_cursor key c s)
perform (record_run run) s = settle (record_reconciliation_run run s)

-- The storage after the calls, the first of the list made first.
unfoldable pub run_calls : List Call → Storage → Storage
unfolding perform
run_calls [] s = s
run_calls (c ∷ cs) s = run_calls cs (perform c s).1
