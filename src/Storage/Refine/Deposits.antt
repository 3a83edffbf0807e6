-- ===== src/Storage/Refine/Deposits.antt =====
-- The deposit operations and the records beside the ledger refine the abstract view.
use v.Base.{
  ◌⊎◌, ℕ, ◌≡◌, refl, sym, false, inl, inr, Option, none, some, Option-cases, Bool-cases, Bool,
  arith,
}
use mathlib.Core.Path.{subst}
use v.Base.Int.{ℤ}
use v.Base.Text.{Text}
use v.Base.Dict.{Dict, get, has}
use v.Storage.Types.{
  DepositRecord, InsertDepositInput, BlockedIdentityRecord, WatcherCursor, ReconciliationRun,
}
use v.Storage.State.{Storage, deposit_by_id, ◌>>=◌}
use v.Storage.Deposits.{
  is_set, deposit_key, new_deposit, with_new_deposit, insert_deposit, RemineUpdate, remine_deposit,
  update_deposit_confirmations, credit_deposit, insert_and_credit_deposit, mark_deposit_reorged,
}
use v.Storage.Records.{
  block_identity, unblock_identity, set_watcher_cursor, record_reconciliation_run,
}
use v.Storage.Refine.Defs.{Refines, Completes}
use v.Storage.Step.{
  is_live_credit, deposit, remine, confirm, credit, reverse, mark, aside, here, next, one-Step,
}
use v.Storage.Step.Solvent.{Solvent}
use v.Storage.Step.Deposits.{Numbered, deposit_by_id-set}
use v.Storage.Calls.Deposits.{
  credit_deposit-credits, mark_deposit_reorged-reverses, mark_deposit_reorged-marks,
}

-- A tidy re-mine finds no deposit whose credit counts.
abbrev pub IsTidyRemine : Bool → Option DepositRecord → Type 0
IsTidyRemine b none = Unit
IsTidyRemine b (some d) = (is_live_credit d ≡ false) ⊎ (b ≡ false)

pub has-eq-false : {V : Type 0} (k : Text) (m : Dict V) → has k m ≡ false → get k m ≡ none
unfolding has
has-eq-false k m h = ground arith

module _ (b : Bool) (s : Storage) (h : Solvent s) where
  pub insert_deposit-Refines : (input : InsertDepositInput) → Refines b s (insert_deposit input s)
  unfolding insert_deposit
  insert_deposit-Refines input =
      let key = deposit_key input.txid input.vout in
      elim (Bool-cases (has key s.deposits_by_key)) [
        | inl present ↦ rw present refl
        | inr fresh ↦
            rw fresh (one-Step (deposit input (has-eq-false key s.deposits_by_key fresh) refl))
      ]

  pub remine-Completes :
      (txid : Text) (vout : ℕ) (update : RemineUpdate)
      → IsTidyRemine b (get (deposit_key txid vout) s.deposits_by_key)
      → Completes b s (remine_deposit txid vout update s)
  unfolding remine_deposit
  remine-Completes txid vout update tidy =
      let key = deposit_key txid vout in
      elim (Option-cases (get key s.deposits_by_key)) [
        | inl missing ↦ rw (missing, remine_deposit) here
        | inr (d, found) ↦
            rw (found, remine_deposit)
              (one-Step (remine key d update found (subst (IsTidyRemine b) found tidy) refl))
      ]

  pub confirmations-Completes :
      (id : ℕ) (confirmations : ℤ) → Completes b s (update_deposit_confirmations id confirmations s)
  unfolding update_deposit_confirmations
  confirmations-Completes id confirmations = elim (Option-cases (deposit_by_id id s)) [
    | inl missing ↦ rw (missing, update_deposit_confirmations) here
    | inr (d, found) ↦
        rw (found, update_deposit_confirmations) (one-Step (confirm id d confirmations found refl))
  ]

  pub credit-Completes : (id at : ℕ) → Completes b s (credit_deposit id at s)
  unfolding credit_deposit
  credit-Completes id at = elim (Option-cases (deposit_by_id id s)) [
    | inl missing ↦ rw (missing, credit_deposit) here
    | inr (d, found) ↦ elim (Bool-cases (is_set d.reorged_at)) [
      | inl gone ↦ rw (found, credit_deposit) (rw gone here)
      | inr live ↦ elim (Bool-cases (is_set d.credited_at)) [
        | inl done ↦ rw (found, credit_deposit) (rw (live, done) here)
        | inr fresh ↦
            subst (Completes b s) (sym (credit_deposit-credits s h id d at found live fresh))
              (one-Step (credit id d at found live fresh refl))
      ]
    ]
  ]

  pub reorg-Completes : (id at : ℕ) → Completes b s (mark_deposit_reorged id at s)
  unfolding mark_deposit_reorged
  reorg-Completes id at = elim (Option-cases (deposit_by_id id s)) [
    | inl missing ↦ rw (missing, mark_deposit_reorged) here
    | inr (d, found) ↦ elim (Bool-cases (is_set d.reorged_at)) [
      | inl gone ↦ rw (found, mark_deposit_reorged) (rw gone here)
      | inr live ↦ elim (Bool-cases (is_set d.credited_at)) [
        | inr fresh ↦
            subst (Completes b s) (sym (mark_deposit_reorged-marks s h id d at found live fresh))
              (one-Step (mark id d at found live (inl fresh) refl))
        | inl done ↦ elim (Option-cases (get d.identity_id s.identities)) [
          | inl unknown ↦
              rw (found, mark_deposit_reorged)
                (rw live (
                  rw done (
                    rw (unknown, mark_deposit_reorged)
                      (one-Step (mark id d at found live (inr unknown) refl)))))
          | inr (i, known) ↦
              subst (Completes b s)
                (sym (mark_deposit_reorged-reverses s h id d at found live i done known))
                (one-Step (reverse id d i at found live done known refl))
        ]
      ]
    ]
  ]

  pub block-Completes : (r : BlockedIdentityRecord) → Completes b s (block_identity r s)
  unfolding block_identity
  block-Completes r = one-Step (aside refl refl refl refl refl)

  pub unblock-Completes : (id : Text) → Completes b s (unblock_identity id s)
  unfolding unblock_identity
  unblock-Completes id = one-Step (aside refl refl refl refl refl)

  pub cursor-Completes :
      (key : Text) (cursor : WatcherCursor) → Completes b s (set_watcher_cursor key cursor s)
  unfolding set_watcher_cursor
  cursor-Completes key cursor = one-Step (aside refl refl refl refl refl)

  pub run_record-Completes :
      (run : ReconciliationRun) → Completes b s (record_reconciliation_run run s)
  unfolding record_reconciliation_run
  run_record-Completes run = one-Step (aside refl refl refl refl refl)

-- Minting: the new deposit is found under its id, so the credit cannot fail.
pub mint-Refines :
    (b : Bool) (s : Storage) (input : InsertDepositInput) (at : ℕ)
    → Solvent s
    → Numbered s
    → Refines b s (insert_and_credit_deposit input at s)
unfolding insert_and_credit_deposit
mint-Refines b s input at h numbered =
    let key = deposit_key input.txid input.vout in
    let d = new_deposit input s in
    elim (Bool-cases (has key s.deposits_by_key)) [
      | inl present ↦ rw present refl
      | inr fresh ↦
          let new = has-eq-false key s.deposits_by_key fresh in
          let found = deposit_by_id-set key d s.deposits_by_key numbered new in
          let e =
            credit_deposit-credits (with_new_deposit input s) h s.next_deposit_id d at found refl
              refl in
          rw fresh (
            rw (e, ◌>>=◌)
              (rw e (
                next (one-Step (deposit input new refl))
                  (credit s.next_deposit_id d at found refl refl refl))))
    ]
