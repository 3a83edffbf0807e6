-- ===== src/Storage/Step/Accounts/Kept.antt =====
-- The accounts are kept by every tidy step, and so along every tidy run.
use v.Base.{
  ℕ, ◌≡◌, refl, sym, true, false, Bool, inl, inr, none, some, arith, Bool-cases, if◌then◌else◌,
}
use mathlib.Core.Path.{subst}
use v.Base.Int.{ℤ, pos, ◌+ℤ◌, neg, int_laws}
use v.Base.Text.{Text, text_eq}
use v.Base.Dict.{get}
use v.Base.Sums.{sum_by}
use v.Storage.Solvency.{balance_of}
use v.Storage.Types.{DepositRecord}
use v.Storage.State.{Storage, deposit_by_id}
use v.Storage.Deposits.{is_set}
use v.Storage.Step.{
  Step, burn, touch, debit, commit, refund, late_commit, purge, deposit, remine, confirm, credit,
  reverse, mark, aside, Steps, here, next,
}
use v.Storage.Step.Solvent.{credit_target-balance, sub_as_add}
use v.Storage.Step.Deposits.{AllValues-deposit_by_id}
use v.Storage.Step.Funded.{Funded, DepositFunded, Steps-Funded}
use v.Storage.Step.Accounts.{
  IsAccounted, held, brought, row_moves, row_stays, deposit_moves, deposit_stays, deposit_put,
  balance_of-set, add_zero,
}

-- A credit with no identity does not occur in a funded storage.
orphan_free :
    (s : Storage)
    → Funded s
    → (n : ℕ) (d : DepositRecord) (at : ℕ) (id : Text) → deposit_by_id n s ≡ some d
    → get d.identity_id s.identities ≡ none
    → brought id (record d { reorged_at = some at }) ≡ brought id d
orphan_free s f n d at id found unknown =
    let no_credit : is_set d.credited_at ≡ false = elim (Bool-cases (is_set d.credited_at)) [
      | inl was ↦ absurd (
          AllValues-deposit_by_id (DepositFunded s.identities) n d s.deposits_by_key f.1 found was
            unknown)
      | inr never ↦ never
    ] in
    ground arith

touch_accounts :
    (b b' held_sum total : ℤ) (k : Bool)
    → b' ≡ b +ℤ (if k then pos 0 else pos 0)
    → b +ℤ held_sum ≡ total
    → b' +ℤ held_sum ≡ total
touch_accounts b b' held_sum total k e h = grind int_laws

pub Step-IsAccounted : {s t : Storage} → Step true s t → Funded s → IsAccounted s → IsAccounted t
Step-IsAccounted {s} (burn k row fresh (inl st) e) f h = subst IsAccounted (sym e) (λ id.
    row_stays s.identities s.spent_requests s.deposits_by_key id k none row fresh (ground arith)
      (h id))
Step-IsAccounted {s} (burn k row fresh (inr (st, free)) e) f h = subst IsAccounted (sym e) (λ id.
    row_stays s.identities s.spent_requests s.deposits_by_key id k none row fresh (ground arith)
      (h id))
Step-IsAccounted {s} (touch k old new found same e) f h = subst IsAccounted (sym e) (λ id.
    touch_accounts (balance_of (get id s.identities)) _ (sum_by (held id) s.spent_requests)
      (sum_by (brought id) s.deposits_by_key) (text_eq k id)
      (balance_of-set id k new s.identities (pos 0)
        (rw (found, same) (sym (add_zero old.balance_sats))))
      (h id))
Step-IsAccounted {s} (debit k row i at fresh status found covered e) f h =
    subst IsAccounted (sym e) (λ id.
      row_moves s.identities s.spent_requests s.deposits_by_key id k none row _
        (neg row.amount_sats) fresh (rw found (sub_as_add i.balance_sats row.amount_sats))
        (grind int_laws) (h id))
Step-IsAccounted {s} (commit k row bytes found status e) f h = subst IsAccounted (sym e) (λ id.
    row_stays s.identities s.spent_requests s.deposits_by_key id k (some row) _ found (ground arith)
      (h id))
Step-IsAccounted {s} (refund k row i reason at found status known e) f h =
    subst IsAccounted (sym e) (λ id.
      row_moves s.identities s.spent_requests s.deposits_by_key id k (some row) _ _ row.amount_sats
        found (rw known refl) (grind int_laws) (h id))
Step-IsAccounted {s} (late_commit k row i bytes at found status known e) f h =
    subst IsAccounted (sym e) (λ id.
      row_moves s.identities s.spent_requests s.deposits_by_key id k (some row) _ _
        (neg row.amount_sats) found (rw known (sub_as_add i.balance_sats row.amount_sats))
        (grind int_laws) (h id))
Step-IsAccounted (purge cutoff untidy e) f h = absurd (cc)
Step-IsAccounted {s} (deposit input fresh e) f h = subst IsAccounted (sym e) (λ id.
    deposit_put s.identities s.spent_requests s.deposits_by_key id _ none _ fresh (ground arith)
      (h id))
Step-IsAccounted {s} (remine k d update found tidy e) f h = subst IsAccounted (sym e) (λ id.
    deposit_put s.identities s.spent_requests s.deposits_by_key id k (some d) _ found (ground arith)
      (h id))
Step-IsAccounted {s} (confirm n d c found e) f h = subst IsAccounted (sym e) (λ id.
    deposit_stays s.identities s.spent_requests s.deposits_by_key id n d _ found (ground arith)
      (h id))
Step-IsAccounted {s} (credit n d at found live fresh e) f h = subst IsAccounted (sym e) (λ id.
    deposit_moves s.identities s.spent_requests s.deposits_by_key id n d _ _ d.amount_sats found
      (rw (credit_target-balance d at (get d.identity_id s.identities)) refl) (grind int_laws)
      (h id))
Step-IsAccounted {s} (reverse n d i at found live credited known e) f h =
    subst IsAccounted (sym e) (λ id.
      deposit_moves s.identities s.spent_requests s.deposits_by_key id n d _ _ (neg d.amount_sats)
        found (rw known (sub_as_add i.balance_sats d.amount_sats)) (grind int_laws) (h id))
Step-IsAccounted {s} (mark n d at found live (inl fresh) e) f h = subst IsAccounted (sym e) (λ id.
    deposit_stays s.identities s.spent_requests s.deposits_by_key id n d _ found (ground arith)
      (h id))
Step-IsAccounted {s} (mark n d at found live (inr unknown) e) f h = subst IsAccounted (sym e) (λ id.
    deposit_stays s.identities s.spent_requests s.deposits_by_key id n d _ found
      (orphan_free s f n d at id found unknown) (h id))
Step-IsAccounted (aside ids ledger rows deposits count) f h = rw (ids, rows, deposits) h

-- Along a tidy run both invariants are kept.
pub Steps-IsAccounted : {s t : Storage} → Steps true s t → Funded s → IsAccounted s → IsAccounted t
Steps-IsAccounted here f h = h
Steps-IsAccounted (next r st) f h = Step-IsAccounted st (Steps-Funded r f) (Steps-IsAccounted r f h)
