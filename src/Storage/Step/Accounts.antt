-- ===== src/Storage/Step/Accounts.antt =====
-- The accounts: an identity's balance, with what its open and settled requests hold, is what its
-- live credited deposits brought in.
pub mod Kept
use v.Base.{
  ℕ, ◌≡◌, ◌≢◌, refl, sym, ◌∙◌, true, false, Bool, ◌&&◌, ◌||◌, not, inl, inr, Option, none, some,
  arith, if◌then◌else◌, Bool-cases, Option-cases,
}
use mathlib.Core.Path.{subst}
use v.Base.Int.{ℤ, pos, ◌+ℤ◌, ◌-ℤ◌, neg, int_laws}
use v.Base.Text.{Text, text_eq, text_eq_refl, text_eq_iff}
use v.Base.Dict.{Dict, get, set, get-set}
use v.Base.Sums.{sum_by, weight_of, sum_by-set}
use v.Storage.Types.{IdentityRecord, SpentRequestStatus, SpentRequestRecord, DepositRecord}
use v.Storage.State.{Storage, set_deposit_in, deposit_by_id_in}
use v.Storage.Deposits.{is_set}
use v.Storage.Solvency.{balance_of}
use v.Storage.Step.{
  Step, burn, touch, debit, commit, refund, late_commit, purge, deposit, remine, confirm, credit,
  reverse, mark, aside, Steps, here, next, is_live_credit,
}
use v.Storage.Step.Solvent.{credit_target-balance}
use v.Storage.Step.Deposits.{sum_by-set_deposit}

-- A row that holds its amount.
abbrev pub is_held : SpentRequestStatus → Bool
is_held SpentRequestStatus.reserved = true
is_held SpentRequestStatus.committed = true
is_held _ = false

abbrev pub held : Text → SpentRequestRecord → ℤ
held id row =
    if text_eq row.identity_id id
    then (if is_held row.status then row.amount_sats else pos 0)
    else pos 0

abbrev pub brought : Text → DepositRecord → ℤ
brought id d =
    if text_eq d.identity_id id then (if is_live_credit d then d.amount_sats else pos 0) else pos 0

abbrev pub Accounts :
    Dict IdentityRecord → Dict SpentRequestRecord → Dict DepositRecord → Text → Type 0
Accounts ids rows ds id = balance_of (get id ids) +ℤ sum_by (held id) rows ≡ sum_by (brought id) ds

abbrev pub IsAccounted : Storage → Type 0
IsAccounted s = (id : Text) → Accounts s.identities s.spent_requests s.deposits_by_key id

pub add_zero : (a : ℤ) → a +ℤ pos 0 ≡ a
add_zero a = omega int_laws

pub balance_of-set :
    (j k : Text) (r : IdentityRecord) (ids : Dict IdentityRecord) (amount : ℤ)
    → r.balance_sats ≡ balance_of (get k ids) +ℤ amount
    → balance_of (get j (set k r ids))
      ≡ balance_of (get j ids) +ℤ (if text_eq k j then amount else pos 0)
balance_of-set j k r ids amount e = elim (Bool-cases (text_eq k j)) [
  | inl hit ↦
      rw (get-set j k r ids, hit) (let same : k ≡ j = (text_eq_iff k j).0 hit in rw (← same) e)
  | inr other ↦ rw (get-set j k r ids, other) (omega int_laws)
]

-- The new balance and the new sum, from the change of each.
settle_rows :
    (b b' held_sum held_sum' old new amount total : ℤ)
    → b' ≡ b +ℤ amount
    → held_sum' +ℤ old ≡ held_sum +ℤ new
    → old ≡ new +ℤ amount
    → b +ℤ held_sum ≡ total
    → b' +ℤ held_sum' ≡ total
settle_rows b b' held_sum held_sum' old new amount total e f g h = grind int_laws

settle_deposits :
    (b b' held_sum total total' old new amount : ℤ)
    → b' ≡ b +ℤ amount
    → total' +ℤ old ≡ total +ℤ new
    → new ≡ old +ℤ amount
    → b +ℤ held_sum ≡ total
    → b' +ℤ held_sum ≡ total'
settle_deposits b b' held_sum total total' old new amount e f g h = grind int_laws

-- A row is put in, and the balance of its identity pays for the change of what it holds.
pub row_moves :
    (ids : Dict IdentityRecord) (rows : Dict SpentRequestRecord) (ds : Dict DepositRecord)
    (id k : Text) (old : Option SpentRequestRecord) (row : SpentRequestRecord) (r : IdentityRecord)
    (amount : ℤ)
    → get k rows ≡ old
    → r.balance_sats ≡ balance_of (get row.identity_id ids) +ℤ amount
    → (weight_of (held id) old
        ≡ held id row +ℤ (if text_eq row.identity_id id then amount else pos 0))
    → Accounts ids rows ds id
    → Accounts (set row.identity_id r ids) (set k row rows) ds id
row_moves ids rows ds id k old row r amount found e w h =
    settle_rows (balance_of (get id ids)) _ (sum_by (held id) rows) _ (weight_of (held id) old)
      (held id row) (if text_eq row.identity_id id then amount else pos 0) _
      (balance_of-set id row.identity_id r ids amount e)
      (rw (← found) (sum_by-set (held id) k row rows)) w h

-- The same for a deposit.
pub deposit_moves :
    (ids : Dict IdentityRecord) (rows : Dict SpentRequestRecord) (ds : Dict DepositRecord)
    (id : Text) (n : ℕ) (old new : DepositRecord) (r : IdentityRecord) (amount : ℤ)
    → deposit_by_id_in n ds ≡ some old
    → r.balance_sats ≡ balance_of (get old.identity_id ids) +ℤ amount
    → (brought id new ≡ brought id old +ℤ (if text_eq old.identity_id id then amount else pos 0))
    → Accounts ids rows ds id
    → Accounts (set old.identity_id r ids) rows (set_deposit_in n new ds) id
deposit_moves ids rows ds id n old new r amount found e w h =
    settle_deposits (balance_of (get id ids)) _ (sum_by (held id) rows) (sum_by (brought id) ds) _
      (brought id old) (brought id new) (if text_eq old.identity_id id then amount else pos 0)
      (balance_of-set id old.identity_id r ids amount e)
      (sum_by-set_deposit (brought id) n old new ds found) w h

-- A row that is put in without a change of any balance.
pub row_stays :
    (ids : Dict IdentityRecord) (rows : Dict SpentRequestRecord) (ds : Dict DepositRecord)
    (id k : Text) (old : Option SpentRequestRecord) (row : SpentRequestRecord)
    → get k rows ≡ old
    → weight_of (held id) old ≡ held id row
    → Accounts ids rows ds id
    → Accounts ids (set k row rows) ds id
row_stays ids rows ds id k old row found w h =
    settle_rows (balance_of (get id ids)) _ (sum_by (held id) rows) _ (weight_of (held id) old)
      (held id row) (pos 0) _ (omega int_laws) (rw (← found) (sum_by-set (held id) k row rows))
      (w ∙ sym (add_zero (held id row))) h

pub deposit_stays :
    (ids : Dict IdentityRecord) (rows : Dict SpentRequestRecord) (ds : Dict DepositRecord)
    (id : Text) (n : ℕ) (old new : DepositRecord)
    → deposit_by_id_in n ds ≡ some old
    → brought id new ≡ brought id old
    → Accounts ids rows ds id
    → Accounts ids rows (set_deposit_in n new ds) id
deposit_stays ids rows ds id n old new found w h =
    settle_deposits (balance_of (get id ids)) _ (sum_by (held id) rows) (sum_by (brought id) ds) _
      (brought id old) (brought id new) (pos 0) (omega int_laws)
      (sum_by-set_deposit (brought id) n old new ds found) (w ∙ sym (add_zero (brought id old))) h

pub deposit_put :
    (ids : Dict IdentityRecord) (rows : Dict SpentRequestRecord) (ds : Dict DepositRecord)
    (id k : Text) (old : Option DepositRecord) (new : DepositRecord)
    → get k ds ≡ old
    → brought id new ≡ weight_of (brought id) old
    → Accounts ids rows ds id
    → Accounts ids rows (set k new ds) id
deposit_put ids rows ds id k old new found w h =
    settle_deposits (balance_of (get id ids)) _ (sum_by (held id) rows) (sum_by (brought id) ds) _
      (weight_of (brought id) old) (brought id new) (pos 0) (omega int_laws)
      (rw (← found) (sum_by-set (brought id) k new ds))
      (w ∙ sym (add_zero (weight_of (brought id) old))) h
