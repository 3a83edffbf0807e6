-- ===== src/Storage/Refine/Requests.antt =====
-- The two-phase debit, the reaper, the clean-up and the balance query refine the abstract view.
use v.Base.{
  ℕ, ◌≡◌, refl, sym, Bool, true, false, inl, inr, List, [], ◌∷◌, arith, leb, Option-cases,
  Bool-cases, ◌++◌,
}
use mathlib.Core.Path.{subst}
use v.Base.Int.{ℤ, ◌≤ℤ◌, ltb_ℤ}
use v.Base.Text.{Text}
use v.Base.Dict.{get, keys}
use v.Storage.Types.{SpentRequestStatus, ReservePaymentInput, RecordBalanceQueryInput, LedgerReason}
use v.Storage.State.{Storage, ◌>>=◌, pure}
use v.Storage.Requests.{
  new_row, query_row, is_reserved, is_error, reserve_payment, commit_payment, rollback_payment,
  late_commit_payment, reap_one, reap_keys, reap_expired_reservations, cleanup_spent_requests,
  record_balance_query,
}
use v.Storage.Refine.Defs.{Completes, bind-Completes}
use v.Storage.Step.{burn, touch, debit, commit, refund, late_commit, purge, here, next, one-Step}
use v.Storage.Step.Solvent.{Solvent, Steps-Solvent}
use v.Storage.Calls.Requests.{
  seen, reserve-debits, reserve-refuses, rollback-refunds, late_commit-debits, reap_one-refunds,
}

is_reserved→eq :
    (st : SpentRequestStatus) → is_reserved st ≡ true → st ≡ SpentRequestStatus.reserved
is_reserved→eq st h = ground arith

is_error→eq : (st : SpentRequestStatus) → is_error st ≡ true → st ≡ SpentRequestStatus.error
is_error→eq st h = ground arith

pub covered→le : (a b : ℤ) → ltb_ℤ b a ≡ false → a ≤ℤ b
covered→le a b h = ground arith

module _ (b : Bool) (s : Storage) (h : Solvent s) where
  pub reserve-Completes : (input : ReservePaymentInput) → Completes b s (reserve_payment input s)
  unfolding reserve_payment
  reserve-Completes input = elim (Option-cases (get input.request_id s.spent_requests)) [
    | inr (row, found) ↦ rw (found, reserve_payment) here
    | inl fresh ↦ elim (Option-cases (get input.identity_id s.identities)) [
      | inl unknown ↦
          rw (fresh, reserve_payment)
            (rw (unknown, reserve_payment)
              (one-Step (
                burn input.request_id (new_row input SpentRequestStatus.insufficient) fresh
                  (inl refl) refl)))
      | inr (i, known) ↦ elim (Bool-cases (ltb_ℤ i.balance_sats input.amount_sats)) [
        | inl short ↦ subst (Completes b s) (sym (reserve-refuses s h input i fresh known short)) (
            next (one-Step (touch input.identity_id i (seen input i) known refl refl)) (
              burn input.request_id (new_row input SpentRequestStatus.insufficient) fresh (inl refl)
                refl))
        | inr covered ↦
            subst (Completes b s) (sym (reserve-debits s h input i fresh known covered)) (
              one-Step (
                debit input.request_id (new_row input SpentRequestStatus.reserved) i
                  input.received_at fresh refl known
                  (covered→le input.amount_sats i.balance_sats covered) refl))
      ]
    ]
  ]

  pub commit-Completes : (k : Text) (bytes at : ℕ) → Completes b s (commit_payment k bytes at s)
  unfolding commit_payment
  commit-Completes k bytes at = elim (Option-cases (get k s.spent_requests)) [
    | inl missing ↦ rw (missing, commit_payment) here
    | inr (row, found) ↦ elim (Bool-cases (is_reserved row.status)) [
      | inl open_row ↦
          rw (found, commit_payment)
            (rw open_row
              (one-Step (commit k row bytes found (is_reserved→eq row.status open_row) refl)))
      | inr closed ↦ rw (found, commit_payment) (rw closed here)
    ]
  ]

  pub rollback-Completes : (k : Text) (at : ℕ) → Completes b s (rollback_payment k at s)
  unfolding rollback_payment
  rollback-Completes k at = elim (Option-cases (get k s.spent_requests)) [
    | inl missing ↦ rw (missing, rollback_payment) here
    | inr (row, found) ↦ elim (Bool-cases (is_reserved row.status)) [
      | inr closed ↦ rw (found, rollback_payment) (rw closed here)
      | inl open_row ↦ elim (Option-cases (get row.identity_id s.identities)) [
        | inl unknown ↦
            rw (found, rollback_payment) (rw open_row (rw (unknown, rollback_payment) here))
        | inr (i, known) ↦
            let status = is_reserved→eq row.status open_row in
            subst (Completes b s) (sym (rollback-refunds s h k row i at found status known))
              (one-Step (refund k row i LedgerReason.rollback at found status known refl))
      ]
    ]
  ]

  pub late_commit-Completes :
      (k : Text) (bytes at : ℕ) → Completes b s (late_commit_payment k bytes at s)
  unfolding late_commit_payment
  late_commit-Completes k bytes at = elim (Option-cases (get k s.spent_requests)) [
    | inl missing ↦ rw (missing, late_commit_payment) here
    | inr (row, found) ↦ elim (Bool-cases (is_error row.status)) [
      | inr other ↦ rw (found, late_commit_payment) (rw other here)
      | inl failed ↦ elim (Option-cases (get row.identity_id s.identities)) [
        | inl unknown ↦
            rw (found, late_commit_payment) (rw failed (rw (unknown, late_commit_payment) here))
        | inr (i, known) ↦
            let status = is_error→eq row.status failed in
            subst (Completes b s) (sym (late_commit-debits s h k row i bytes at found status known))
              (one-Step (late_commit k row i bytes at found status known refl))
      ]
    ]
  ]

  pub reap_one-Completes : (cutoff at : ℕ) (k : Text) → Completes b s (reap_one cutoff at k s)
  unfolding reap_one
  reap_one-Completes cutoff at k = elim (Option-cases (get k s.spent_requests)) [
    | inl missing ↦ rw (missing, reap_one) here
    | inr (row, found) ↦ elim (Bool-cases (is_reserved row.status)) [
      | inr closed ↦ rw (found, reap_one) (rw closed here)
      | inl open_row ↦ elim (Bool-cases (leb cutoff row.received_at)) [
        | inl young ↦ rw (found, reap_one) (rw (open_row, young) here)
        | inr old ↦ elim (Option-cases (get row.identity_id s.identities)) [
          | inl unknown ↦ rw (found, reap_one) (rw (open_row, old) (rw (unknown, reap_one) here))
          | inr (i, known) ↦
              let status = is_reserved→eq row.status open_row in
              subst (Completes b s)
                (sym (reap_one-refunds s h cutoff at k row i found status old known))
                (one-Step (refund k row i LedgerReason.reaper_expired at found status known refl))
        ]
      ]
    ]
  ]

  pub cleanup-Completes : (cutoff : ℕ) → b ≡ false → Completes b s (cleanup_spent_requests cutoff s)
  unfolding cleanup_spent_requests
  cleanup-Completes cutoff untidy = one-Step (purge cutoff untidy refl)

  pub balance_query-Completes :
      (input : RecordBalanceQueryInput) → Completes b s (record_balance_query input s)
  unfolding record_balance_query
  balance_query-Completes input = elim (Option-cases (get input.request_id s.spent_requests)) [
    | inr (row, found) ↦ rw (found, record_balance_query) here
    | inl fresh ↦
        rw (fresh, record_balance_query)
          (one-Step (burn input.request_id (query_row input) fresh (inr (refl, refl)) refl))
  ]

-- The reaper's loop is a run of refunds, whatever the keys.
pub reap_keys-Completes :
    (b : Bool) (cutoff at : ℕ) (ks : List Text) (s : Storage)
    → Solvent s
    → Completes b s (reap_keys cutoff at ks s)
unfolding reap_keys
reap_keys-Completes b cutoff at [] s h = here
reap_keys-Completes b cutoff at (k ∷ ks) s h =
    bind-Completes b s (reap_one cutoff at k)
      (λ found. do later ← reap_keys cutoff at ks; pure (found ++ later))
      (reap_one-Completes b s h cutoff at k)
      (λ found t steps.
        bind-Completes b t (reap_keys cutoff at ks) (λ later. pure (found ++ later))
          (reap_keys-Completes b cutoff at ks t (Steps-Solvent steps h)) (λ later u _. here))

pub reap-Completes :
    (b : Bool) (cutoff at : ℕ) (s : Storage)
    → Solvent s
    → Completes b s (reap_expired_reservations cutoff at s)
unfolding reap_expired_reservations
reap-Completes b cutoff at s h = reap_keys-Completes b cutoff at (keys s.spent_requests) s h
