-- ===== src/Storage/Replay.antt =====
-- Replay protection and the two-phase debit, as the callers of the storage see them
-- (packages/storage/src/memory.ts).
use v.Base.{
  ℕ, ◌≡◌, ◌≢◌, ◌∙◌, refl, sym, ap, true, false, inl, inr, none, some, List, Bool-cases,
  Option-cases,
}
use v.Base.Int.{ℤ, pos, ◌+ℤ◌, ◌-ℤ◌, ◌≤ℤ◌, ltb_ℤ, int_laws}
use v.Base.Text.{Text, text_eq_refl}
use v.Base.Dict.{Dict, get, set, get-set}
use v.Storage.Types.{
  IdentityRecord, LedgerReason, SpentRequestStatus, SpentRequestRecord, ReservePaymentInput,
  ReservePaymentResult, LateCommitResult,
}
use v.Storage.State.{Storage, ok}
use v.Storage.Requests.{reserve_payment, commit_payment, rollback_payment, late_commit_payment}
use v.Storage.Step.{Steps, refund, with_status, committed_row}
use v.Storage.Refine.{Completes-Steps}
use v.Storage.Refine.Requests.{reserve-Completes, covered→le}
use v.Storage.Step.Rows.{Steps-final, Steps-present}
use v.Storage.Step.Funded.{is_pending}
use v.Storage.Step.Solvent.{Solvent, Step-Solvent, Steps-Solvent}
use v.Storage.Calls.Requests.{
  reserve-debits, reserve-refuses, refunded, rollback-refunds, late_commit-debits,
}
use v.Storage.History.{Call, run_calls}
use v.Storage.History.Invariants.{
  IsTidy, after, after-Solvent, after-Numbered, run_calls-Steps_tidy,
}
use v.Storage.Step.Deposits.{Steps-Numbered}
use v.Storage.Solvency.{balance_of}

put_present {ℓ} : {V : Type ℓ} (k : Text) (v : V) (m : Dict V) → get k (set k v m) ≢ none
put_present k v m = rw (get-set k k v m, text_eq_refl k) (cc)

put_found {ℓ} : {V : Type ℓ} (k : Text) (v : V) (m : Dict V) → get k (set k v m) ≡ some v
put_found k v m = rw (get-set k k v m, text_eq_refl k) refl

reserve-present :
    (s : Storage)
    → Solvent s
    → (input : ReservePaymentInput)
    → get input.request_id (reserve_payment input s).1.spent_requests ≢ none
unfolding reserve_payment
reserve-present s h input = elim (Option-cases (get input.request_id s.spent_requests)) [
  | inr (row, found) ↦ rw (found, reserve_payment) (rw found (cc))
  | inl fresh ↦ elim (Option-cases (get input.identity_id s.identities)) [
    | inl unknown ↦
        rw (fresh, reserve_payment)
          (rw (unknown, reserve_payment) (put_present input.request_id _ s.spent_requests))
    | inr (i, known) ↦ elim (Bool-cases (ltb_ℤ i.balance_sats input.amount_sats)) [
      | inl short ↦
          rw (reserve-refuses s h input i fresh known short)
            (put_present input.request_id _ s.spent_requests)
      | inr covered ↦
          rw (reserve-debits s h input i fresh known covered)
            (put_present input.request_id _ s.spent_requests)
    ]
  ]
]

reserve-Steps :
    (s : Storage)
    → Solvent s
    → (input : ReservePaymentInput) → Steps true s (reserve_payment input s).1
reserve-Steps s h input =
    Completes-Steps true s (reserve_payment input s) (reserve-Completes true s h input)

replay-of_present :
    (s : Storage) (input : ReservePaymentInput)
    → get input.request_id s.spent_requests ≢ none
    → (status : SpentRequestStatus) × (reserve_payment input s
        ≡ (ok (ReservePaymentResult.replay status), s))
unfolding reserve_payment
replay-of_present s input h = elim (Option-cases (get input.request_id s.spent_requests)) [
  | inl missing ↦ absurd (h missing)
  | inr (row, found) ↦ (row.status, rw (found, reserve_payment) refl)
]

-- After any sequence of calls, whatever a first reservation answered, and whatever tidy calls
-- follow it, a later reservation with the same request id is answered as a replay and changes
-- nothing.
pub reserve_once :
    (cs ds : List Call) (input again : ReservePaymentInput)
    → again.request_id ≡ input.request_id
    → IsTidy ds (reserve_payment input (after cs)).1
    → (status : SpentRequestStatus) × (reserve_payment again
          (run_calls ds (reserve_payment input (after cs)).1)
        ≡ (
          ok (ReservePaymentResult.replay status),
          run_calls ds (reserve_payment input (after cs)).1,
        ))
reserve_once cs ds input again same tidy =
    let s = after cs in
    let h = after-Solvent cs in
    let first = reserve-Steps s h input in
    let run =
      run_calls-Steps_tidy ds (reserve_payment input s).1 (Steps-Solvent first h)
        (Steps-Numbered first (after-Numbered cs)) tidy in
    replay-of_present (run_calls ds (reserve_payment input s).1) again
      (rw same (Steps-present run input.request_id (reserve-present s h input)))

-- After any sequence of calls, a committed request stays as it is, whatever tidy calls follow.
pub commit_is_final :
    (cs ds : List Call) (k : Text) (row : SpentRequestRecord)
    → get k (after cs).spent_requests ≡ some row
    → row.status ≡ SpentRequestStatus.committed
    → IsTidy ds (after cs)
    → get k (run_calls ds (after cs)).spent_requests ≡ some row
commit_is_final cs ds k row found status tidy =
    Steps-final (run_calls-Steps_tidy ds (after cs) (after-Solvent cs) (after-Numbered cs) tidy) k
      row (rw (status, is_pending) refl) found

sub_add : (a b : ℤ) → a -ℤ b +ℤ b ≡ a
sub_add a b = omega int_laws

add_sub : (a b : ℤ) → a +ℤ b -ℤ b ≡ a
add_sub a b = omega int_laws

sub_nonneg : (a b : ℤ) → ltb_ℤ a b ≡ false → pos 0 ≤ℤ a -ℤ b
sub_nonneg a b h = omega (int_laws, covered→le b a h)

-- In a solvent storage, a reservation that is granted to a known identity was covered: it takes
-- exactly its amount from the balance, and leaves no debt.
pub reserve_covered :
    (s : Storage) (input : ReservePaymentInput) (i : IdentityRecord) (b : ℤ)
    → Solvent s
    → get input.identity_id s.identities ≡ some i
    → (reserve_payment input s).0 ≡ ok (ReservePaymentResult.reserved b)
    → (b +ℤ input.amount_sats ≡ i.balance_sats)
      × (pos 0 ≤ℤ b)
      × (balance_of (get input.identity_id (reserve_payment input s).1.identities) ≡ b)
unfolding reserve_payment
reserve_covered s input i b h known e =
    elim (Option-cases (get input.request_id s.spent_requests)) [
      | inr (row, found) ↦ absurd (cc (rw (found, reserve_payment) at e))
      | inl fresh ↦ elim (Bool-cases (ltb_ℤ i.balance_sats input.amount_sats)) [
        | inl short ↦ absurd (cc (rw (reserve-refuses s h input i fresh known short) at e))
        | inr covered ↦
            let spent : i.balance_sats -ℤ input.amount_sats ≡ b =
              cc (rw (reserve-debits s h input i fresh known covered) at e) in
            rw (reserve-debits s h input i fresh known covered, ← spent)
              (
                sub_add i.balance_sats input.amount_sats,
                sub_nonneg i.balance_sats input.amount_sats covered,
                ap balance_of (put_found input.identity_id _ s.identities),
              )
      ]
    ]

-- In a solvent storage, for a reserved request of a known identity: a roll-back gives the amount
-- back, and a late commit after it takes the amount again: the balance and the row are those of a
-- commit in time.
pub late_commit_settles :
    (s : Storage) (k : Text) (row : SpentRequestRecord) (i : IdentityRecord) (bytes at later : ℕ)
    → Solvent s
    → get k s.spent_requests ≡ some row
    → row.status ≡ SpentRequestStatus.reserved
    → get row.identity_id s.identities ≡ some i
    → let t = (rollback_payment k at s).1 in
      let (r, u) = late_commit_payment k bytes later t in
      (balance_of (get row.identity_id t.identities) ≡ i.balance_sats +ℤ row.amount_sats)
      × (r ≡ ok (LateCommitResult.done i.balance_sats))
      × (balance_of (get row.identity_id u.identities) ≡ i.balance_sats)
      × (get k u.spent_requests ≡ get k (commit_payment k bytes at s).1.spent_requests)
unfolding commit_payment
late_commit_settles s k row i bytes at later h found status known =
    let t = refunded LedgerReason.rollback at k row i s in
    let failed = with_status SpentRequestStatus.error row in
    let i' : IdentityRecord = record i { balance_sats = i.balance_sats +ℤ row.amount_sats } in
    let known' = put_found row.identity_id i' s.identities in
    let back = rollback-refunds s h k row i at found status known in
    let again =
      late_commit-debits t
        (Step-Solvent {b = true} {s = s} {t = t}
          (refund k row i LedgerReason.rollback at found status known refl) h)
        k failed i' bytes later (put_found k failed s.spent_requests) refl known' in
    rw (back, again)
      (
        ap balance_of known',
        ap (λ b. ok (LateCommitResult.done b)) (add_sub i.balance_sats row.amount_sats),
        ap balance_of (put_found row.identity_id _ t.identities)
            ∙ add_sub i.balance_sats row.amount_sats,
        put_found k (committed_row bytes row) t.spent_requests
            ∙ rw (found, commit_payment)
                (rw status (sym (put_found k (committed_row bytes row) s.spent_requests))),
      )
