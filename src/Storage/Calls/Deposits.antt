-- ===== src/Storage/Calls/Deposits.antt =====
-- What crediting, minting and reorging a deposit do in a solvent storage
-- (packages/storage/src/memory.ts).
use v.Base.{ℕ, ◌≡◌, ◌∙◌, refl, true, false, none, some}
use v.Base.Int.{◌+ℤ◌, ◌-ℤ◌, neg}
use v.Base.Dict.{get}
use v.Storage.Types.{
  IdentityRecord, DepositRecord, LedgerKind, LedgerReason, CreditDepositResult, MarkReorgedResult,
}
use v.Storage.State.{Storage, ok, deposit_by_id}
use v.Storage.Deposits.{
  is_set, is_new, credit_target, credit_body, credit_deposit, reverse_body, mark_deposit_reorged,
}
use v.Storage.Solvency.{assert-then}
use v.Storage.Solvency.Moves.{move-ok}
use v.Storage.Step.{moved, with_deposit}
use v.Storage.Step.Solvent.{Solvent, sub_as_add, credit_target-balance}

-- The storage after a credit.
abbrev pub credited : ℕ → DepositRecord → ℕ → Storage → Storage
credited id d at s =
    moved (credit_target d at (get d.identity_id s.identities)) d.identity_id LedgerKind.deposit
      LedgerReason.deposit_credited d.amount_sats
      ((credit_target d at (get d.identity_id s.identities)).balance_sats +ℤ d.amount_sats) at none
      (some d.id) (with_deposit id (record d { credited_at = some at }) s)

-- The storage after a reorg of a credited deposit.
abbrev pub reversed : ℕ → DepositRecord → IdentityRecord → ℕ → Storage → Storage
reversed id d i at s =
    moved i d.identity_id LedgerKind.reorg_adjust LedgerReason.reorg (neg d.amount_sats)
      (i.balance_sats -ℤ d.amount_sats) at none (some d.id)
      (with_deposit id (record d { reorged_at = some at }) s)

module _ (s : Storage) (h : Solvent s) (id : ℕ) (d : DepositRecord) (at : ℕ)
    (found : deposit_by_id id s ≡ some d) (live : is_set d.reorged_at ≡ false) where
  pub credit_deposit-credits :
      is_set d.credited_at ≡ false
      → credit_deposit id at s ≡ (
        ok (
            CreditDepositResult.done
              ((credit_target d at (get d.identity_id s.identities)).balance_sats +ℤ d.amount_sats)
              (is_new (get d.identity_id s.identities))),
        credited id d at s,
      )
  unfolding credit_deposit
  credit_deposit-credits fresh =
      let o = get d.identity_id s.identities in
      let t = credit_target d at o in
      let m =
        move-ok (with_deposit id (record d { credited_at = some at }) s) d.identity_id
          (record t { balance_sats = t.balance_sats +ℤ d.amount_sats }) LedgerKind.deposit
          LedgerReason.deposit_credited d.amount_sats at none (some d.id)
          (CreditDepositResult.done (t.balance_sats +ℤ d.amount_sats) (is_new o)) h
          (rw (credit_target-balance d at o) refl) in
      rw (found, credit_deposit)
        (rw live (rw fresh (assert-then d.identity_id (credit_body id at d o) s h ∙ m.0)))

  pub mark_deposit_reorged-reverses :
      (i : IdentityRecord)
      → is_set d.credited_at ≡ true
      → get d.identity_id s.identities ≡ some i
      → mark_deposit_reorged id at s ≡ (
        ok (MarkReorgedResult.done true (some (i.balance_sats -ℤ d.amount_sats))),
        reversed id d i at s,
      )
  unfolding mark_deposit_reorged
  mark_deposit_reorged-reverses i was known =
      let s' = with_deposit id (record d { reorged_at = some at }) s in
      let m =
        move-ok s' d.identity_id (record i { balance_sats = i.balance_sats -ℤ d.amount_sats })
          LedgerKind.reorg_adjust LedgerReason.reorg (neg d.amount_sats) at none (some d.id)
          (MarkReorgedResult.done true (some (i.balance_sats -ℤ d.amount_sats))) h
          (rw known (sub_as_add i.balance_sats d.amount_sats)) in
      rw (found, mark_deposit_reorged)
        (rw live (
          rw was (
            rw (known, mark_deposit_reorged)
              (assert-then d.identity_id (reverse_body at d i) s' h ∙ m.0))))

  pub mark_deposit_reorged-marks :
      is_set d.credited_at ≡ false
      → mark_deposit_reorged id at s ≡ (
        ok (MarkReorgedResult.done false none),
        with_deposit id (record d { reorged_at = some at }) s,
      )
  unfolding mark_deposit_reorged
  mark_deposit_reorged-marks fresh = rw (found, mark_deposit_reorged) (rw live (rw fresh refl))
