-- ===== src/Storage/Calls/Requests.antt =====
-- What the two-phase debit does in a solvent storage: the checks pass, and each call that moves
-- money ends in a storage that is written out (packages/storage/src/memory.ts).
use v.Base.{ℕ, ◌≡◌, ◌∙◌, refl, ap, true, false, none, some, ◌∷◌, [], leb}
use v.Base.Int.{◌+ℤ◌, ◌-ℤ◌, neg, ltb_ℤ}
use v.Base.Text.{Text}
use v.Base.Dict.{get, get-set}
use v.Base.Sums.{set-set}
use v.Base.Text.{text_eq_refl}
use v.Storage.Types.{
  IdentityRecord, SpentRequestStatus, SpentRequestRecord, LedgerKind, LedgerReason,
  ReservePaymentInput, ReservePaymentResult, ConditionalUpdateResult, LateCommitResult,
}
use v.Storage.State.{Storage, ok}
use v.Storage.Requests.{
  new_row, is_reserved, is_error, refund_body, refund_row, reserve_body, reserve_payment,
  rollback_payment, late_commit_body, late_commit_payment, reap_one,
}
use v.Storage.Solvency.{touch-IsSolvent, assert-then}
use v.Storage.Solvency.Moves.{move-ok}
use v.Storage.Step.{moved, with_request, with_identity, with_status, committed_row}
use v.Storage.Step.Solvent.{Solvent, sub_as_add}

abbrev pub seen : ReservePaymentInput → IdentityRecord → IdentityRecord
seen input i = record i { last_request_at = some input.received_at }

-- The storage after a covered reservation.
abbrev pub debited : ReservePaymentInput → IdentityRecord → Storage → Storage
debited input i s =
    moved (seen input i) input.identity_id LedgerKind.debit LedgerReason.reserve
      (neg input.amount_sats) (i.balance_sats -ℤ input.amount_sats) input.received_at
      (some input.request_id) none
      (with_request input.request_id (new_row input SpentRequestStatus.reserved) s)

-- The storage after a refund of a reserved row.
abbrev pub refunded :
    LedgerReason → ℕ → Text → SpentRequestRecord → IdentityRecord → Storage → Storage
refunded reason at k row i s =
    moved i row.identity_id LedgerKind.refund reason row.amount_sats
      (i.balance_sats +ℤ row.amount_sats) at (some k) none
      (with_request k (with_status SpentRequestStatus.error row) s)

-- The storage after a late commit.
abbrev pub recommitted : ℕ → ℕ → Text → SpentRequestRecord → IdentityRecord → Storage → Storage
recommitted bytes at k row i s =
    moved i row.identity_id LedgerKind.debit LedgerReason.late_commit (neg row.amount_sats)
      (i.balance_sats -ℤ row.amount_sats) at (some k) none
      (with_request k (committed_row bytes row) s)

module _ (s : Storage) (h : Solvent s) where
  pub refund_row-eq :
      {A : Type 0} (reason : LedgerReason) (at : ℕ) (k : Text) (row : SpentRequestRecord)
      (i : IdentityRecord) (result : A)
      → get row.identity_id s.identities ≡ some i
      → refund_row reason at k row i result s ≡ (ok result, refunded reason at k row i s)
  refund_row-eq reason at k row i result known =
      let m =
        move-ok (with_request k (with_status SpentRequestStatus.error row) s) row.identity_id
          (record i { balance_sats = i.balance_sats +ℤ row.amount_sats }) LedgerKind.refund reason
          row.amount_sats at (some k) none result h (rw known refl) in
      assert-then row.identity_id (refund_body reason at k row i result) s h ∙ m.0

  pub rollback-refunds :
      (k : Text) (row : SpentRequestRecord) (i : IdentityRecord) (at : ℕ)
      → get k s.spent_requests ≡ some row
      → row.status ≡ SpentRequestStatus.reserved
      → get row.identity_id s.identities ≡ some i
      → rollback_payment k at s
        ≡ (ok ConditionalUpdateResult.done, refunded LedgerReason.rollback at k row i s)
  unfolding rollback_payment
  rollback-refunds k row i at found status known =
      rw (found, rollback_payment)
        (rw (status, is_reserved)
          (rw (known, rollback_payment)
            (refund_row-eq LedgerReason.rollback at k row i ConditionalUpdateResult.done known)))

  pub late_commit-debits :
      (k : Text) (row : SpentRequestRecord) (i : IdentityRecord) (bytes at : ℕ)
      → get k s.spent_requests ≡ some row
      → row.status ≡ SpentRequestStatus.error
      → get row.identity_id s.identities ≡ some i
      → late_commit_payment k bytes at s ≡ (
        ok (LateCommitResult.done (i.balance_sats -ℤ row.amount_sats)),
        recommitted bytes at k row i s,
      )
  unfolding late_commit_payment
  late_commit-debits k row i bytes at found status known =
      let m =
        move-ok (with_request k (committed_row bytes row) s) row.identity_id
          (record i { balance_sats = i.balance_sats -ℤ row.amount_sats }) LedgerKind.debit
          LedgerReason.late_commit (neg row.amount_sats) at (some k) none
          (LateCommitResult.done (i.balance_sats -ℤ row.amount_sats)) h
          (rw known (sub_as_add i.balance_sats row.amount_sats)) in
      rw (found, late_commit_payment)
        (rw (status, is_error)
          (rw (known, late_commit_payment)
            (assert-then row.identity_id (late_commit_body k bytes at row i) s h ∙ m.0)))

  pub reap_one-refunds :
      (cutoff at : ℕ) (k : Text) (row : SpentRequestRecord) (i : IdentityRecord)
      → get k s.spent_requests ≡ some row
      → row.status ≡ SpentRequestStatus.reserved
      → leb cutoff row.received_at ≡ false
      → get row.identity_id s.identities ≡ some i
      → reap_one cutoff at k s
        ≡ (ok (row.request_id ∷ []), refunded LedgerReason.reaper_expired at k row i s)
  unfolding reap_one
  reap_one-refunds cutoff at k row i found status old known =
      rw (found, reap_one)
        (rw (status, is_reserved)
          (rw (old, reap_one)
            (rw (known, reap_one)
              (refund_row-eq LedgerReason.reaper_expired at k row i (row.request_id ∷ []) known))))

  module _ (input : ReservePaymentInput) (i : IdentityRecord)
      (fresh : get input.request_id s.spent_requests ≡ none)
      (known : get input.identity_id s.identities ≡ some i) where
    pub reserve-debits :
        ltb_ℤ i.balance_sats input.amount_sats ≡ false
        → reserve_payment input s ≡ (
          ok (ReservePaymentResult.reserved (i.balance_sats -ℤ input.amount_sats)),
          debited input i s,
        )
    unfolding reserve_payment
    reserve-debits covered =
        let m =
          move-ok
            (with_request input.request_id (new_row input SpentRequestStatus.reserved)
              (with_identity input.identity_id (seen input i) s))
            input.identity_id
            (record i {
              last_request_at = some input.received_at;
              balance_sats = i.balance_sats -ℤ input.amount_sats;
            })
            LedgerKind.debit LedgerReason.reserve (neg input.amount_sats) input.received_at
            (some input.request_id) none
            (ReservePaymentResult.reserved (i.balance_sats -ℤ input.amount_sats))
            (touch-IsSolvent s.identities s.ledger input.identity_id h i (seen input i) known refl)
            (rw
              (
                get-set input.identity_id input.identity_id (seen input i) s.identities,
                text_eq_refl input.identity_id,
              )
              (sub_as_add i.balance_sats input.amount_sats)) in
        rw (fresh, reserve_payment)
          (rw (known, reserve_payment)
            (assert-then input.identity_id (reserve_body input i) s h
              ∙ rw covered (
                  m.0
                  ∙ ap
                      (λ m. (
                        ok (ReservePaymentResult.reserved (i.balance_sats -ℤ input.amount_sats)),
                        record (debited input i s) { identities = m },
                      ))
                      (set-set input.identity_id
                        (record i {
                          last_request_at = some input.received_at;
                          balance_sats = i.balance_sats -ℤ input.amount_sats;
                        })
                        (seen input i) s.identities))))

    pub reserve-refuses :
        ltb_ℤ i.balance_sats input.amount_sats ≡ true
        → reserve_payment input s ≡ (
          ok (ReservePaymentResult.insufficient i.balance_sats),
          with_request input.request_id
              (new_row input SpentRequestStatus.insufficient)
              (with_identity input.identity_id (seen input i) s),
        )
    unfolding reserve_payment
    reserve-refuses short =
        rw (fresh, reserve_payment)
          (rw (known, reserve_payment)
            (assert-then input.identity_id (reserve_body input i) s h ∙ rw short refl))
