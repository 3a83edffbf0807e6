-- ===== src/Storage/Solvency/Moves.antt =====
-- A balance movement of `InMemoryStorage`: the new balance, its ledger row, and the check after it.
use v.Base.{ℕ, ◌+◌, ◌≡◌, refl, Option, [], ◌∷◌, ◌++◌}
use v.Base.Int.{ℤ, ◌+ℤ◌}
use v.Base.Text.{Text}
use v.Base.Dict.{get, set}
use v.Storage.Types.{IdentityRecord, LedgerEntry, LedgerKind, LedgerReason}
use v.Storage.State.{Storage, ok, pure, ◌>>◌, set_identity, append_ledger, assert_balance_invariant}
use v.Storage.Solvency.{IsSolvent, balance_of, post-IsSolvent, assert-then}

abbrev pub entry_of :
    Text → LedgerKind → LedgerReason → ℤ → ℤ → ℕ → Option Text → Option ℕ → Storage → LedgerEntry
entry_of id kind reason amount after at request_id deposit_id s = record {
  id = s.next_ledger_id;
  identity_id = id;
  kind = kind;
  reason = reason;
  amount_sats = amount;
  request_id = request_id;
  deposit_id = deposit_id;
  balance_after_sats = after;
  created_at = at;
}

-- The storage with the record of an identity and one more ledger row.
abbrev pub posted : Text → IdentityRecord → LedgerEntry → Storage → Storage
posted id r e s = record s {
  identities = set id r s.identities;
  ledger = s.ledger ++ e ∷ [];
  next_ledger_id = s.next_ledger_id + 1;
}

-- A movement ends well, and the storage that it leaves is the one with the balance and the row.
pub move-ok :
    {A : Type 0} (s : Storage) (id : Text) (r : IdentityRecord) (kind : LedgerKind)
    (reason : LedgerReason) (amount : ℤ) (at : ℕ) (rq : Option Text) (dp : Option ℕ) (result : A)
    → IsSolvent s.identities s.ledger
    → r.balance_sats ≡ balance_of (get id s.identities) +ℤ amount
    → let e = entry_of id kind reason amount r.balance_sats at rq dp s in
      ((set_identity id r
            >> (append_ledger id kind reason amount r.balance_sats at rq dp
                >> (assert_balance_invariant id >> pure result)))
          s
        ≡ (ok result, posted id r e s))
      × IsSolvent (set id r s.identities) (s.ledger ++ e ∷ [])
unfolding append_ledger
move-ok s id r kind reason amount at rq dp result h moved =
    let e = entry_of id kind reason amount r.balance_sats at rq dp s in
    let after = post-IsSolvent s.identities s.ledger id h r e refl refl moved in
    (assert-then id (pure result) (posted id r e s) after, after)
