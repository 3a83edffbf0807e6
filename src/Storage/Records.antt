-- ===== src/Storage/Records.antt =====
-- The ledger queries, the blocklist, the watcher's cursor and the reconciliation log of
-- `InMemoryStorage` (packages/storage/src/memory.ts).
use v.Base.{
  ℕ, zero, suc, ◌+◌, ◌-◌, Bool, ◌&&◌, Option, none, some, List, [], ◌∷◌, ◌++◌, reverse, ltb,
  if◌then◌else◌,
}
use v.Base.Int.{pos, ◌+ℤ◌}
use v.Base.Lists.{length, take, drop}
use v.Base.Text.{Text, text_eq}
use v.Base.Dict.{get, has, set, delete, keys, values}
use v.Storage.Types.{
  LedgerEntry, LedgerSummary, BlockedIdentityRecord, WatcherCursor, ReconciliationRun,
}
use v.Storage.State.{Storage, ok, Action}

unfoldable pub list_identity_ids : Storage → List Text
list_identity_ids s = keys s.identities

unfoldable pub filter_entries : Text → ℕ → List LedgerEntry → List LedgerEntry
filter_entries identity_id after_id [] = []
filter_entries identity_id after_id (e ∷ es) =
    let rest = filter_entries identity_id after_id es in
    if text_eq e.identity_id identity_id && ltb after_id e.id then e ∷ rest else rest

abbrev pub limited : Option ℕ → List LedgerEntry → List LedgerEntry
limited none es = es
limited (some limit) es = take limit es

unfoldable pub list_ledger_entries : Text → ℕ → Option ℕ → Storage → List LedgerEntry
unfolding filter_entries
list_ledger_entries identity_id after_id limit s =
    limited limit (filter_entries identity_id after_id s.ledger)

-- One round of the loop of `getLedgerSummary`.
abbrev pub summarize : Text → LedgerSummary → LedgerEntry → LedgerSummary
summarize identity_id acc e =
    if text_eq e.identity_id identity_id
    then record {
      entry_count = acc.entry_count + 1;
      sum_sats = acc.sum_sats +ℤ e.amount_sats;
      latest_balance_after_sats = some e.balance_after_sats;
    }
    else acc

unfoldable pub summarize_from : Text → LedgerSummary → List LedgerEntry → LedgerSummary
summarize_from identity_id acc [] = acc
summarize_from identity_id acc (e ∷ es) =
    summarize_from identity_id (summarize identity_id acc e) es

abbrev pub no_entries : LedgerSummary
no_entries = record { entry_count = 0; sum_sats = pos 0; latest_balance_after_sats = none }

unfoldable pub get_ledger_summary : Text → Storage → LedgerSummary
unfolding summarize_from
get_ledger_summary identity_id s = summarize_from identity_id no_entries s.ledger

unfoldable pub is_blocked : Text → Storage → Bool
is_blocked identity_id s = has identity_id s.blocked

unfoldable pub block_identity : BlockedIdentityRecord → Action (Unit {0})
block_identity r s = (ok tt, record s { blocked = set r.identity_id r s.blocked })

unfoldable pub unblock_identity : Text → Action Bool
unblock_identity identity_id s =
    (ok (has identity_id s.blocked), record s { blocked = delete identity_id s.blocked })

unfoldable pub list_blocked_identities : Storage → List BlockedIdentityRecord
list_blocked_identities s = values s.blocked

unfoldable pub get_watcher_cursor : Text → Storage → Option WatcherCursor
get_watcher_cursor key s = get key s.cursors

unfoldable pub set_watcher_cursor : Text → WatcherCursor → Action (Unit {0})
set_watcher_cursor key cursor s = (ok tt, record s { cursors = set key cursor s.cursors })

-- The run comes without an id: the field of the argument is not read.
unfoldable pub record_reconciliation_run : ReconciliationRun → Action ReconciliationRun
record_reconciliation_run run s =
    let entry = record run { id = s.next_reconciliation_id } in
    (
      ok entry,
      record s {
        next_reconciliation_id = s.next_reconciliation_id + 1;
        reconciliation_runs = s.reconciliation_runs ++ entry ∷ [];
      },
    )

-- `slice(-limit)`; for a limit of 0 that is the whole list.
abbrev pub slice_last : ℕ → List ReconciliationRun → List ReconciliationRun
slice_last zero runs = runs
slice_last (suc n) runs = drop (length runs - suc n) runs

unfoldable pub list_reconciliation_runs : ℕ → Storage → List ReconciliationRun
list_reconciliation_runs limit s = reverse (slice_last limit s.reconciliation_runs)
