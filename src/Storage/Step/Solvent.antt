-- ===== src/Storage/Step/Solvent.antt =====
-- Solvency is kept by every step of the storage, and so along every run.
use v.Base.{Bool, ℕ, ◌≡◌, refl, sym, Option, none, some}
use mathlib.Core.Path.{subst}
use v.Base.Int.{ℤ, ◌+ℤ◌, ◌-ℤ◌, neg, int_laws}
use v.Base.Text.{Text}
use v.Base.Dict.{get}
use v.Storage.Types.{IdentityRecord, SpentRequestStatus, DepositRecord, LedgerKind, LedgerReason}
use v.Storage.State.{Storage}
use v.Storage.Deposits.{credit_target}
use v.Storage.Solvency.{IsSolvent, balance_of, post-IsSolvent, touch-IsSolvent}
use v.Storage.Solvency.Moves.{entry_of}
use v.Storage.Step.{
  Step, burn, touch, debit, commit, refund, late_commit, purge, deposit, remine, confirm, credit,
  reverse, mark, aside, Steps, here, next, moved, with_request, with_status, with_deposit,
  committed_row,
}

-- Every identity's balance is the sum of its ledger rows and what the latest one says.
abbrev pub Solvent : Storage → Type 0
Solvent s = IsSolvent s.identities s.ledger

pub sub_as_add : (a b : ℤ) → a -ℤ b ≡ a +ℤ neg b
sub_as_add a b = omega int_laws

pub moved-Solvent :
    (s : Storage) (i : IdentityRecord) (id : Text) (kind : LedgerKind) (reason : LedgerReason)
    (amount after : ℤ) (at : ℕ) (rq : Option Text) (dp : Option ℕ)
    → after ≡ balance_of (get id s.identities) +ℤ amount
    → Solvent s
    → Solvent (moved i id kind reason amount after at rq dp s)
moved-Solvent s i id kind reason amount after at rq dp e h =
    post-IsSolvent s.identities s.ledger id h (record i { balance_sats = after })
      (entry_of id kind reason amount after at rq dp s) refl refl e

pub credit_target-balance :
    (d : DepositRecord) (at : ℕ) (o : Option IdentityRecord)
    → (credit_target d at o).balance_sats ≡ balance_of o
credit_target-balance d at none = refl
credit_target-balance d at (some i) = go i.first_deposit_at refl
  where
    go :
        (f : Option ℕ)
        → i.first_deposit_at ≡ f
        → (credit_target d at (some i)).balance_sats ≡ i.balance_sats
    go none e = rw (e, credit_target)
    go (some n) e = rw (e, credit_target)

pub Step-Solvent : {b : Bool} {s t : Storage} → Step b s t → Solvent s → Solvent t
Step-Solvent (burn k row fresh status e) h = subst Solvent (sym e) h
Step-Solvent {s} (touch k old new found same e) h =
    subst Solvent (sym e) (touch-IsSolvent s.identities s.ledger k h old new found same)
Step-Solvent {s} (debit k row i at fresh status found covered e) h = subst Solvent (sym e) (
    moved-Solvent (with_request k row s) (record i { last_request_at = some at }) row.identity_id
      LedgerKind.debit LedgerReason.reserve (neg row.amount_sats)
      (i.balance_sats -ℤ row.amount_sats) at (some k) none
      (rw found (sub_as_add i.balance_sats row.amount_sats)) h)
Step-Solvent (commit k row bytes found status e) h = subst Solvent (sym e) h
Step-Solvent {s} (refund k row i reason at found status known e) h = subst Solvent (sym e) (
    moved-Solvent (with_request k (with_status SpentRequestStatus.error row) s) i row.identity_id
      LedgerKind.refund reason row.amount_sats (i.balance_sats +ℤ row.amount_sats) at (some k) none
      (rw known refl) h)
Step-Solvent {s} (late_commit k row i bytes at found status known e) h = subst Solvent (sym e) (
    moved-Solvent (with_request k (committed_row bytes row) s) i row.identity_id LedgerKind.debit
      LedgerReason.late_commit (neg row.amount_sats) (i.balance_sats -ℤ row.amount_sats) at (some k)
      none (rw known (sub_as_add i.balance_sats row.amount_sats)) h)
Step-Solvent (purge cutoff untidy e) h = subst Solvent (sym e) h
Step-Solvent (deposit input fresh e) h = subst Solvent (sym e) h
Step-Solvent (remine k d update found tidy e) h = subst Solvent (sym e) h
Step-Solvent (confirm id d n found e) h = subst Solvent (sym e) h
Step-Solvent {s} (credit id d at found live fresh e) h = subst Solvent (sym e) (
    moved-Solvent (with_deposit id (record d { credited_at = some at }) s)
      (credit_target d at (get d.identity_id s.identities)) d.identity_id LedgerKind.deposit
      LedgerReason.deposit_credited d.amount_sats
      ((credit_target d at (get d.identity_id s.identities)).balance_sats +ℤ d.amount_sats) at none
      (some d.id) (rw (credit_target-balance d at (get d.identity_id s.identities)) refl) h)
Step-Solvent {s} (reverse id d i at found live credited known e) h = subst Solvent (sym e) (
    moved-Solvent (with_deposit id (record d { reorged_at = some at }) s) i d.identity_id
      LedgerKind.reorg_adjust LedgerReason.reorg (neg d.amount_sats)
      (i.balance_sats -ℤ d.amount_sats) at none (some d.id)
      (rw known (sub_as_add i.balance_sats d.amount_sats)) h)
Step-Solvent (mark id d at found live unmoved e) h = subst Solvent (sym e) h
Step-Solvent (aside ids ledger rows deposits count) h = rw (ids, ledger) h

-- Solvency is kept along every run.
pub Steps-Solvent : {b : Bool} {s t : Storage} → Steps b s t → Solvent s → Solvent t
Steps-Solvent here h = h
Steps-Solvent (next r st) h = Step-Solvent st (Steps-Solvent r h)
