-- ===== src/Storage/Step.antt =====
-- The abstract view of a storage: the ways in which one call, or one round of a loop, may change
-- it, and the storages that a run of such changes reaches.
pub mod Solvent
pub mod Deposits
pub mod Funded
pub mod Accounts
pub mod Rows
pub mod Distinct
use v.Base.{
  ℕ, ◌&&◌, not, true, false, ◌≡◌, ◌≢◌, ◌⊎◌, Bool, true, false, Option, none, some, List, refl,
}
use v.Base.Int.{ℤ, pos, ◌+ℤ◌, ◌-ℤ◌, ◌≤ℤ◌, neg}
use v.Base.Text.{Text}
use v.Base.Dict.{Dict, get, set}
use v.Storage.Types.{
  IdentityRecord, SpentRequestStatus, SpentRequestRecord, InsertDepositInput, DepositRecord,
  LedgerEntry, LedgerKind, LedgerReason,
}
use v.Storage.State.{Storage, deposit_by_id, set_deposit_in}
use v.Storage.Requests.{cleanup_rows}
use v.Storage.Deposits.{RemineUpdate, remined, deposit_key, with_new_deposit, credit_target, is_set}
use v.Storage.Solvency.Moves.{entry_of, posted}

abbrev pub with_request : Text → SpentRequestRecord → Storage → Storage
with_request k row s = record s { spent_requests = set k row s.spent_requests }

abbrev pub with_identity : Text → IdentityRecord → Storage → Storage
with_identity k r s = record s { identities = set k r s.identities }

abbrev pub with_deposit : ℕ → DepositRecord → Storage → Storage
with_deposit id d s = record s { deposits_by_key = set_deposit_in id d s.deposits_by_key }

abbrev pub with_status : SpentRequestStatus → SpentRequestRecord → SpentRequestRecord
with_status status row = record row { status = status }

abbrev pub committed_row : ℕ → SpentRequestRecord → SpentRequestRecord
committed_row bytes row = record row {
  status = SpentRequestStatus.committed;
  response_bytes = some bytes;
}

-- The balance moved by an amount, with the ledger row that says so.
abbrev pub moved :
    IdentityRecord
    → Text
    → LedgerKind
    → LedgerReason
    → (amount balance_after : ℤ) → ℕ
    → Option Text
    → Option ℕ
    → Storage
    → Storage
moved identity id kind reason amount balance_after at request_id deposit_id s =
    posted id (record identity { balance_sats = balance_after })
      (entry_of id kind reason amount balance_after at request_id deposit_id s) s

-- A deposit whose credit counts.
abbrev pub is_live_credit : DepositRecord → Bool
is_live_credit d = is_set d.credited_at && not (is_set d.reorged_at)

-- The new storage stands in an equation, so that a step can be taken apart at any storage. A tidy
-- step forgets no request, and finds no deposit in another block whose credit still counts.
pub data Step (tidy : Bool) (s t : Storage) : Type 0 where
  -- A request id is burned, and no money moves.
  burn :
      (k : Text) (row : SpentRequestRecord)
      → get k s.spent_requests ≡ none
      → (row.status ≡ SpentRequestStatus.insufficient)
        ⊎ ((row.status ≡ SpentRequestStatus.committed) × (row.amount_sats ≡ pos 0))
      → t ≡ with_request k row s
      → Step tidy s t
  -- An identity's record changes, and not its balance.
  touch :
      (k : Text) (old new : IdentityRecord)
      → get k s.identities ≡ some old
      → new.balance_sats ≡ old.balance_sats
      → t ≡ with_identity k new s
      → Step tidy s t
  -- A covered price is debited, and the request id is reserved.
  debit :
      (k : Text) (row : SpentRequestRecord) (i : IdentityRecord) (at : ℕ)
      → get k s.spent_requests ≡ none
      → row.status ≡ SpentRequestStatus.reserved
      → get row.identity_id s.identities ≡ some i
      → row.amount_sats ≤ℤ i.balance_sats
      → t
        ≡ moved
            (record i { last_request_at = some at })
            row.identity_id
            LedgerKind.debit
            LedgerReason.reserve
            (neg row.amount_sats)
            (i.balance_sats -ℤ row.amount_sats)
            at
            (some k)
            none
            (with_request k row s)
      → Step tidy s t
  -- A reservation is committed.
  commit :
      (k : Text) (row : SpentRequestRecord) (bytes : ℕ)
      → get k s.spent_requests ≡ some row
      → row.status ≡ SpentRequestStatus.reserved
      → t ≡ with_request k (committed_row bytes row) s
      → Step tidy s t
  -- A reservation is given back.
  refund :
      (k : Text) (row : SpentRequestRecord) (i : IdentityRecord) (reason : LedgerReason) (at : ℕ)
      → get k s.spent_requests ≡ some row
      → row.status ≡ SpentRequestStatus.reserved
      → get row.identity_id s.identities ≡ some i
      → t
        ≡ moved i row.identity_id LedgerKind.refund reason row.amount_sats
            (i.balance_sats +ℤ row.amount_sats)
            at
            (some k)
            none
            (with_request k (with_status SpentRequestStatus.error row) s)
      → Step tidy s t
  -- A request that was given back is debited again.
  late_commit :
      (k : Text) (row : SpentRequestRecord) (i : IdentityRecord) (bytes at : ℕ)
      → get k s.spent_requests ≡ some row
      → row.status ≡ SpentRequestStatus.error
      → get row.identity_id s.identities ≡ some i
      → t
        ≡ moved i row.identity_id LedgerKind.debit LedgerReason.late_commit
            (neg row.amount_sats)
            (i.balance_sats -ℤ row.amount_sats)
            at
            (some k)
            none
            (with_request k (committed_row bytes row) s)
      → Step tidy s t
  -- Old requests are forgotten.
  purge :
      (cutoff : ℕ)
      → tidy ≡ false
      → t ≡ record s { spent_requests = (cleanup_rows cutoff s.spent_requests).0 }
      → Step tidy s t
  -- A deposit is recorded.
  deposit :
      (input : InsertDepositInput)
      → get (deposit_key input.txid input.vout) s.deposits_by_key ≡ none
      → t ≡ with_new_deposit input s
      → Step tidy s t
  -- A deposit is found in another block.
  remine :
      (k : Text) (d : DepositRecord) (update : RemineUpdate)
      → get k s.deposits_by_key ≡ some d
      → (is_live_credit d ≡ false) ⊎ (tidy ≡ false)
      → t ≡ record s { deposits_by_key = set k (remined update d) s.deposits_by_key }
      → Step tidy s t
  -- A deposit's confirmations are counted.
  confirm :
      (id : ℕ) (d : DepositRecord) (confirmations : ℤ)
      → deposit_by_id id s ≡ some d
      → t
        ≡ with_deposit id
            (record d { input = record (d.input) { confirmations = confirmations } })
            s
      → Step tidy s t
  -- A deposit is credited, to an identity that is there or is new.
  credit :
      (id : ℕ) (d : DepositRecord) (at : ℕ)
      → deposit_by_id id s ≡ some d
      → is_set d.reorged_at ≡ false
      → is_set d.credited_at ≡ false
      → t
        ≡ moved
            (credit_target d at (get d.identity_id s.identities))
            d.identity_id
            LedgerKind.deposit
            LedgerReason.deposit_credited
            d.amount_sats
            ((credit_target d at (get d.identity_id s.identities)).balance_sats +ℤ d.amount_sats)
            at
            none
            (some d.id)
            (with_deposit id (record d { credited_at = some at }) s)
      → Step tidy s t
  -- A credit is taken back.
  reverse :
      (id : ℕ) (d : DepositRecord) (i : IdentityRecord) (at : ℕ)
      → deposit_by_id id s ≡ some d
      → is_set d.reorged_at ≡ false
      → is_set d.credited_at ≡ true
      → get d.identity_id s.identities ≡ some i
      → t
        ≡ moved i d.identity_id LedgerKind.reorg_adjust LedgerReason.reorg
            (neg d.amount_sats)
            (i.balance_sats -ℤ d.amount_sats)
            at
            none
            (some d.id)
            (with_deposit id (record d { reorged_at = some at }) s)
      → Step tidy s t
  -- A deposit that moved no money is marked.
  mark :
      (id : ℕ) (d : DepositRecord) (at : ℕ)
      → deposit_by_id id s ≡ some d
      → is_set d.reorged_at ≡ false
      → (is_set d.credited_at ≡ false) ⊎ (get d.identity_id s.identities ≡ none)
      → t ≡ with_deposit id (record d { reorged_at = some at }) s
      → Step tidy s t
  -- The blocklist, the cursors or the reconciliation log change.
  aside :
      t.identities ≡ s.identities
      → t.ledger ≡ s.ledger
      → t.spent_requests ≡ s.spent_requests
      → t.deposits_by_key ≡ s.deposits_by_key
      → t.next_deposit_id ≡ s.next_deposit_id
      → Step tidy s t

-- A run of steps, from the storage on the left.
pub data Steps (tidy : Bool) (s : Storage) : Storage → Type 0 where
  here : Steps tidy s s
  next : {t u : Storage} → Steps tidy s t → Step tidy t u → Steps tidy s u

pub Steps-trans : {tidy : Bool} {s t u : Storage} → Steps tidy s t → Steps tidy t u → Steps tidy s u
Steps-trans p here = p
Steps-trans p (next q st) = next (Steps-trans p q) st

pub one-Step : {tidy : Bool} {s t : Storage} → Step tidy s t → Steps tidy s t
one-Step st = next here st
