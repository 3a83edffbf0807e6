-- ===== src/Storage/State.antt =====
-- The fields of `InMemoryStorage` (packages/storage/src/memory.ts), a method as a function of
-- them, and the private helpers. What a method wrote before it throws stays written.
use v.Base.{ℕ, ◌+◌, Option, none, some, List, [], ◌∷◌, ◌++◌, reverse, if◌then◌else◌, ◌==◌}
use v.Base.Int.{ℤ, eqb_ℤ}
use v.Base.Text.{Text, text_eq}
use v.Base.Dict.{Dict, get, set}
use v.Storage.Types.{
  IdentityRecord, SpentRequestRecord, DepositRecord, LedgerEntry, LedgerKind, LedgerReason,
  BlockedIdentityRecord, WatcherCursor, ReconciliationRun, Thrown, solvency_violated,
}

pub record Storage : Type 0 where
  pub identities : Dict IdentityRecord
  pub spent_requests : Dict SpentRequestRecord
  pub deposits_by_key : Dict DepositRecord
  pub ledger : List LedgerEntry
  pub blocked : Dict BlockedIdentityRecord
  pub cursors : Dict WatcherCursor
  pub reconciliation_runs : List ReconciliationRun
  pub next_deposit_id : ℕ
  pub next_ledger_id : ℕ
  pub next_reconciliation_id : ℕ

abbrev pub empty_storage : Storage
empty_storage = record {
  identities = [];
  spent_requests = [];
  deposits_by_key = [];
  ledger = [];
  blocked = [];
  cursors = [];
  reconciliation_runs = [];
  next_deposit_id = 1;
  next_ledger_id = 1;
  next_reconciliation_id = 1;
}

pub data Result (A : Type 0) : Type 0 where
  ok : A → Result A
  throw : Thrown → Result A

abbrev pub Action : Type 0 → Type 0
Action A = Storage → Result A × Storage

abbrev pub pure : {A : Type 0} → A → Action A
pure a s = (ok a, s)

abbrev pub raise : {A : Type 0} → Thrown → Action A
raise t s = (throw t, s)

abbrev pub gets : {A : Type 0} → (Storage → A) → Action A
gets f s = (ok (f s), s)

abbrev pub modify : (Storage → Storage) → Action (Unit {0})
modify f s = (ok tt, f s)

infixl 5 ◌>>=◌ ◌>>◌
abbrev pub ◌>>=◌ : {A B : Type 0} → Action A → (A → Action B) → Action B
◌>>=◌ m f s = let (r, s') = m s in elim r [ ok a ↦ f a s' | throw t ↦ (throw t, s') ]

abbrev pub ◌>>◌ : {A B : Type 0} → Action A → Action B → Action B
m >> k = m >>= λ _. k

-- Writing through the object that a map holds.
abbrev pub set_identity : Text → IdentityRecord → Action (Unit {0})
set_identity k r = modify (λ s. record s { identities = set k r s.identities })

abbrev pub set_request : Text → SpentRequestRecord → Action (Unit {0})
set_request k r = modify (λ s. record s { spent_requests = set k r s.spent_requests })

-- The first deposit, in the order of the map, with that id.
unfoldable pub deposit_by_id_in : ℕ → Dict DepositRecord → Option DepositRecord
deposit_by_id_in id [] = none
deposit_by_id_in id ((k, d) ∷ m) = if d.id == id then some d else deposit_by_id_in id m

abbrev pub deposit_by_id : ℕ → Storage → Option DepositRecord
deposit_by_id id s = deposit_by_id_in id s.deposits_by_key

-- Writing through the object that `deposit_by_id` found.
unfoldable pub set_deposit_in : ℕ → DepositRecord → Dict DepositRecord → Dict DepositRecord
set_deposit_in id v [] = []
set_deposit_in id v ((k, d) ∷ m) = if d.id == id then (k, v) ∷ m else (k, d) ∷ set_deposit_in id v m

abbrev pub set_deposit : ℕ → DepositRecord → Action (Unit {0})
set_deposit id d =
    modify (λ s. record s { deposits_by_key = set_deposit_in id d s.deposits_by_key })

unfoldable pub append_ledger :
    Text → LedgerKind → LedgerReason → ℤ → ℤ → ℕ → Option Text → Option ℕ → Action (Unit {0})
append_ledger identity_id kind reason amount_sats balance_after_sats created_at request_id
      deposit_id s =
    let entry : LedgerEntry = record {
      id = s.next_ledger_id;
      identity_id = identity_id;
      kind = kind;
      reason = reason;
      amount_sats = amount_sats;
      request_id = request_id;
      deposit_id = deposit_id;
      balance_after_sats = balance_after_sats;
      created_at = created_at;
    } in
    (ok tt, record s { next_ledger_id = s.next_ledger_id + 1; ledger = s.ledger ++ entry ∷ [] })

-- The first entry of the identity, in a list that has the newest entry first.
unfoldable pub find_entry : Text → List LedgerEntry → Option LedgerEntry
find_entry identity_id [] = none
find_entry identity_id (e ∷ es) =
    if text_eq e.identity_id identity_id then some e else find_entry identity_id es

-- The loop runs from the end of the ledger to its start.
unfoldable pub assert_balance_invariant : Text → Action (Unit {0})
assert_balance_invariant identity_id s = elim (get identity_id s.identities) [
  | none ↦ (ok tt, s)
  | some identity ↦ elim (find_entry identity_id (reverse s.ledger)) [
    | none ↦ (ok tt, s)
    | some entry ↦
        if eqb_ℤ entry.balance_after_sats identity.balance_sats
        then (ok tt, s)
        else (throw (solvency_violated identity_id), s)
  ]
]
