-- ===== src/Verifier/Settling.antt =====
-- The second phase: `commit` and `rollback` of packages/verifier/src/prepaid-sig.ts, repeated and
-- in conflict.
use v.Base.{ℕ, ◌≡◌, refl, true, false, Option, none, some, inl, inr, Bool-cases, Option-cases}
use v.Base.Text.{Text, text_eq_refl}
use v.Base.Dict.{Dict, get, set, get-set}
use v.Storage.Types.{SpentRequestStatus, SpentRequestRecord, ConditionalUpdateResult}
use v.Storage.State.{Storage, ok}
use v.Storage.Requests.{
  is_reserved, is_error, commit_payment, late_commit_payment, rollback_payment,
}
use v.Storage.Step.{with_status, committed_row}
use v.Storage.Step.Solvent.{Solvent}
use v.Storage.Calls.Requests.{rollback-refunds, late_commit-debits}
use v.Verifier.Types.{VerifyErrorCode, no_details, accepted, fail, Committed, RolledBack}
use v.Verifier.PrepaidSig.{late_reply, after_commit, commit, rollback_reply, rollback}

-- The row of the request is there, with that status.
abbrev pub HasStatus : SpentRequestStatus → Option SpentRequestRecord → Type 0
HasStatus status o = (row : SpentRequestRecord) × (o ≡ some row) × (row.status ≡ status)

stored : {V : Type 0} (k : Text) (v : V) (m : Dict V) → get k (set k v m) ≡ some v
stored k v m = rw (get-set k k v m, text_eq_refl k) refl

reserved_iff : (x : SpentRequestStatus) → is_reserved x ≡ true → x ≡ SpentRequestStatus.reserved
reserved_iff SpentRequestStatus.reserved e = refl
reserved_iff SpentRequestStatus.committed e = absurd (cc e)
reserved_iff SpentRequestStatus.error e = absurd (cc e)
reserved_iff SpentRequestStatus.insufficient e = absurd (cc e)
reserved_iff SpentRequestStatus.blocked e = absurd (cc e)
reserved_iff SpentRequestStatus.expired e = absurd (cc e)

error_iff : (x : SpentRequestStatus) → is_error x ≡ true → x ≡ SpentRequestStatus.error
error_iff SpentRequestStatus.error e = refl
error_iff SpentRequestStatus.committed e = absurd (cc e)
error_iff SpentRequestStatus.reserved e = absurd (cc e)
error_iff SpentRequestStatus.insufficient e = absurd (cc e)
error_iff SpentRequestStatus.blocked e = absurd (cc e)
error_iff SpentRequestStatus.expired e = absurd (cc e)

late-HasStatus :
    (k : Text) (bytes now : ℕ) (s : Storage) (c : Committed)
    → Solvent s
    → late_reply (late_commit_payment k bytes now s).0 ≡ accepted c
    → HasStatus SpentRequestStatus.committed
        (get k (late_commit_payment k bytes now s).1.spent_requests)
unfolding late_commit_payment
late-HasStatus k bytes now s c h e = elim (Option-cases (get k s.spent_requests)) [
  | inl missing ↦ absurd (cc (rw (missing, late_commit_payment) at e))
  | inr (row, found) ↦ elim (Bool-cases (is_error row.status)) [
    | inl failed_row ↦ elim (Option-cases (get row.identity_id s.identities)) [
      | inl unknown ↦ absurd (
          cc (
            rw (unknown, late_commit_payment) at
              (rw failed_row at (rw (found, late_commit_payment) at e))))
      | inr (i, known) ↦
          rw
            (late_commit-debits s h k row i bytes now found (error_iff row.status failed_row) known)
            (committed_row bytes row, stored k (committed_row bytes row) s.spent_requests, refl)
    ]
    | inr other ↦ absurd (cc (rw other at (rw (found, late_commit_payment) at e)))
  ]
]

not_reserved-HasStatus :
    (k : Text) (bytes now : ℕ) (meanwhile : Storage → Storage) (s : Storage)
    (row : SpentRequestRecord) (status : SpentRequestStatus) (c : Committed)
    → get k s.spent_requests ≡ some row
    → row.status ≡ status
    → Solvent (meanwhile s)
    → (after_commit k bytes now meanwhile (ok (ConditionalUpdateResult.not_done (some status))) s).0
      ≡ accepted c
    → HasStatus SpentRequestStatus.committed (
        get k
          (after_commit k bytes now meanwhile
            (ok (ConditionalUpdateResult.not_done (some status)))
            s).1.spent_requests)
not_reserved-HasStatus k bytes now meanwhile s row SpentRequestStatus.committed c found status h e =
    (row, found, status)
not_reserved-HasStatus k bytes now meanwhile s row SpentRequestStatus.error c found status h e =
    late-HasStatus k bytes now (meanwhile s) c h e
not_reserved-HasStatus k bytes now meanwhile s row SpentRequestStatus.reserved c found status h e =
    absurd (cc e)
not_reserved-HasStatus k bytes now meanwhile s row SpentRequestStatus.insufficient c found status h
      e =
    absurd (cc e)
not_reserved-HasStatus k bytes now meanwhile s row SpentRequestStatus.blocked c found status h e =
    absurd (cc e)
not_reserved-HasStatus k bytes now meanwhile s row SpentRequestStatus.expired c found status h e =
    absurd (cc e)

commit-HasStatus :
    (k : Text) (bytes now : ℕ) (meanwhile : Storage → Storage) (s : Storage) (c : Committed)
    → Solvent (meanwhile s)
    → (commit k bytes now meanwhile s).0 ≡ accepted c
    → HasStatus SpentRequestStatus.committed
        (get k (commit k bytes now meanwhile s).1.spent_requests)
unfolding commit commit_payment
commit-HasStatus k bytes now meanwhile s c h e = elim (Option-cases (get k s.spent_requests)) [
  | inl missing ↦ absurd (cc (rw (missing, commit_payment) at e))
  | inr (row, found) ↦ elim (Bool-cases (is_reserved row.status)) [
    | inl reserved_row ↦
        rw (found, commit_payment)
          (rw reserved_row
            (committed_row bytes row, stored k (committed_row bytes row) s.spent_requests, refl))
    | inr other ↦
        rw (found, commit_payment)
          (rw other (
            not_reserved-HasStatus k bytes now meanwhile s row row.status c found refl h
              (rw other at (rw (found, commit_payment) at e))))
  ]
]

commit-again :
    (k : Text) (bytes now : ℕ) (meanwhile : Storage → Storage) (s : Storage)
    → HasStatus SpentRequestStatus.committed (get k s.spent_requests)
    → commit k bytes now meanwhile s
      ≡ (accepted (record { already_committed = true; late = false; balance_after_sats = none }), s)
unfolding commit commit_payment
commit-again k bytes now meanwhile s (row, found, status) =
    rw (found, commit_payment) (rw status refl)

rollback-refused :
    (k : Text) (now : ℕ) (s : Storage)
    → HasStatus SpentRequestStatus.committed (get k s.spent_requests)
    → rollback k now s ≡ (fail 409 VerifyErrorCode.invalid_state no_details, s)
unfolding rollback rollback_payment
rollback-refused k now s (row, found, status) = rw (found, rollback_payment) (rw status refl)

-- Where the storage is solvent when a late commit would run, after an accepted commit, late or in
-- time, a further commit of the request is accepted as a repeat, a roll-back is refused with 409,
-- and neither changes the storage.
pub commit_is_settled :
    (k : Text) (bytes now : ℕ) (meanwhile : Storage → Storage) (s : Storage) (c : Committed)
    → Solvent (meanwhile s)
    → (commit k bytes now meanwhile s).0 ≡ accepted c
    → (again later : ℕ) (others : Storage → Storage)
    → let t = (commit k bytes now meanwhile s).1 in
      (commit k again later others t ≡ (
        accepted (record { already_committed = true; late = false; balance_after_sats = none }),
        t,
      ))
      × (rollback k later t ≡ (fail 409 VerifyErrorCode.invalid_state no_details, t))
commit_is_settled k bytes now meanwhile s c h e again later others =
    let t = (commit k bytes now meanwhile s).1 in
    let row = commit-HasStatus k bytes now meanwhile s c h e in
    (commit-again k again later others t row, rollback-refused k later t row)

rollback-again :
    (k : Text) (now : ℕ) (s : Storage)
    → HasStatus SpentRequestStatus.error (get k s.spent_requests)
    → rollback k now s ≡ (accepted (record { already_rolled_back = true }), s)
unfolding rollback rollback_payment
rollback-again k now s (row, found, status) = rw (found, rollback_payment) (rw status refl)

failed-HasStatus :
    (k : Text) (s : Storage) (row : SpentRequestRecord) (b : RolledBack)
    (status : SpentRequestStatus)
    → get k s.spent_requests ≡ some row
    → row.status ≡ status
    → rollback_reply (ok (ConditionalUpdateResult.not_done (some status))) ≡ accepted b
    → HasStatus SpentRequestStatus.error (get k s.spent_requests)
failed-HasStatus k s row b SpentRequestStatus.error found is x = (row, found, is)
failed-HasStatus k s row b SpentRequestStatus.reserved found is x = absurd (cc x)
failed-HasStatus k s row b SpentRequestStatus.committed found is x = absurd (cc x)
failed-HasStatus k s row b SpentRequestStatus.insufficient found is x = absurd (cc x)
failed-HasStatus k s row b SpentRequestStatus.blocked found is x = absurd (cc x)
failed-HasStatus k s row b SpentRequestStatus.expired found is x = absurd (cc x)

rollback-HasStatus :
    (k : Text) (now : ℕ) (s : Storage) (b : RolledBack)
    → Solvent s
    → (rollback k now s).0 ≡ accepted b
    → HasStatus SpentRequestStatus.error (get k (rollback k now s).1.spent_requests)
unfolding rollback rollback_payment
rollback-HasStatus k now s b h e = elim (Option-cases (get k s.spent_requests)) [
  | inl missing ↦ absurd (cc (rw (missing, rollback_payment) at e))
  | inr (row, found) ↦ elim (Bool-cases (is_reserved row.status)) [
    | inl reserved_row ↦ elim (Option-cases (get row.identity_id s.identities)) [
      | inl unknown ↦ absurd (
          cc (
            rw (reserved_iff row.status reserved_row) at (
              rw (unknown, rollback_payment) at
                (rw reserved_row at (rw (found, rollback_payment) at e)))))
      | inr (i, known) ↦
          rw (rollback-refunds s h k row i now found (reserved_iff row.status reserved_row) known) (
            with_status SpentRequestStatus.error row,
            stored k (with_status SpentRequestStatus.error row) s.spent_requests,
            refl,
          )
    ]
    | inr other ↦
        rw (found, rollback_payment)
          (rw other (
            failed-HasStatus k s row b row.status found refl
              (rw other at (rw (found, rollback_payment) at e))))
  ]
]

-- In a solvent storage, after an accepted roll-back a further one is accepted as a repeat and
-- changes nothing: the amount is given back once.
pub rollback_is_settled :
    (k : Text) (now : ℕ) (s : Storage) (b : RolledBack)
    → Solvent s
    → (rollback k now s).0 ≡ accepted b
    → (later : ℕ)
    → rollback k later (rollback k now s).1
      ≡ (accepted (record { already_rolled_back = true }), (rollback k now s).1)
rollback_is_settled k now s b h e later =
    rollback-again k later (rollback k now s).1 (rollback-HasStatus k now s b h e)
