-- ===== src/Storage/Tests.antt =====
-- Runs of the in-memory storage (packages/storage/src/memory.ts) at small inputs.
use v.Base.{◌≡◌, refl, false, none, some, List, [], ◌∷◌}
use v.Base.Int.{pos, neg, ◌+ℤ◌, ◌-ℤ◌, ◌≤ℤ◌}
use v.Base.Text.{Text, codes, text_eq}
use v.Base.Dict.{get, set, has}
use v.Storage.Types.{
  IdentityRecord, SpentRequestRecord, SpentRequestStatus, DepositOrigin, InsertDepositInput,
  ReservePaymentInput, ReservePaymentResult, LateCommitResult,
}
use v.Storage.State.{
  ok, append_ledger, find_entry, assert_balance_invariant, set_deposit_in, deposit_by_id_in,
}
use v.Storage.Requests.{reserve_payment, commit_payment, rollback_payment, late_commit_payment}
use v.Storage.Deposits.{deposit_key, insert_deposit, credit_deposit, insert_and_credit_deposit}
use v.Storage.History.{Call, reserve, commit, rollback, mint, perform, run_calls}
use v.Storage.History.Invariants.{
  IsSettled, after, after-Solvent, perform-refines, after-IsAccounted,
}
use v.Storage.Solvency.{balance_of}
use v.Storage.Step.Accounts.{IsAccounted}
use v.Storage.Replay.{reserve_once, commit_is_final, reserve_covered, late_commit_settles}

abbrev alice : Text
alice = codes "a@"

abbrev request : Text
request = codes "R1"

abbrev coins : InsertDepositInput
coins = record {
  txid = codes "t";
  vout = 0;
  identity_id = alice;
  amount_sats = pos 50;
  currency = codes "V";
  block_height = 7;
  block_hash = codes "h";
  confirmations = pos 1;
  detected_at = 1;
  origin = DepositOrigin.simulated;
  created_by = none;
  note = none;
}

abbrev payment : ReservePaymentInput
payment = record {
  request_id = request;
  identity_id = alice;
  issued_at = 5;
  received_at = 6;
  amount_sats = pos 20;
  method = codes "GET";
  path = codes "/";
}

abbrev funded : List Call
funded = mint coins 2 ∷ []

perform-refines_example : IsSettled false (after funded) (perform (reserve payment) (after funded))
perform-refines_example = perform-refines funded (reserve payment)

after-IsAccounted_example : IsAccounted (after (mint coins 2 ∷ reserve payment ∷ []))
after-IsAccounted_example = after-IsAccounted (mint coins 2 ∷ reserve payment ∷ []) (tt, (tt, tt))

-- A committed row of the payment.
abbrev paid : SpentRequestRecord
paid = record {
  request_id = request;
  identity_id = alice;
  issued_at = 5;
  received_at = 6;
  amount_sats = pos 20;
  method = codes "GET";
  path = codes "/";
  status = SpentRequestStatus.committed;
  response_bytes = some 9;
}

abbrev spent : List Call
spent = mint coins 2 ∷ reserve payment ∷ commit request 9 7 ∷ []

spent-row : get request (after spent).spent_requests ≡ some paid
unfolding run_calls perform reserve_payment commit_payment insert_and_credit_deposit insert_deposit
    credit_deposit get set append_ledger find_entry assert_balance_invariant set_deposit_in
    deposit_by_id_in deposit_key text_eq ◌+ℤ◌ ◌-ℤ◌ has neg
spent-row = refl

reserve_once_example :
    (status : SpentRequestStatus) × (reserve_payment payment
        (run_calls (rollback request 8 ∷ []) (reserve_payment payment (after funded)).1)
      ≡ (
        ok (ReservePaymentResult.replay status),
        run_calls (rollback request 8 ∷ []) (reserve_payment payment (after funded)).1,
      ))
reserve_once_example = reserve_once funded (rollback request 8 ∷ []) payment payment refl (tt, tt)

commit_is_final_example :
    get request (run_calls (rollback request 8 ∷ []) (after spent)).spent_requests ≡ some paid
commit_is_final_example =
    commit_is_final spent (rollback request 8 ∷ []) request paid spent-row refl (tt, tt)

abbrev account : IdentityRecord
account = record {
  identity_id = alice;
  balance_sats = pos 50;
  created_at = 2;
  first_deposit_at = some 2;
  last_request_at = none;
}

funded-account : get alice (after funded).identities ≡ some account
unfolding run_calls perform reserve_payment commit_payment insert_and_credit_deposit insert_deposit
    credit_deposit get set append_ledger find_entry assert_balance_invariant set_deposit_in
    deposit_by_id_in deposit_key text_eq ◌+ℤ◌ ◌-ℤ◌ has neg
funded-account = refl

funded-reserves :
    (reserve_payment payment (after funded)).0 ≡ ok (ReservePaymentResult.reserved (pos 30))
unfolding run_calls perform reserve_payment commit_payment insert_and_credit_deposit insert_deposit
    credit_deposit get set append_ledger find_entry assert_balance_invariant set_deposit_in
    deposit_by_id_in deposit_key text_eq ◌+ℤ◌ ◌-ℤ◌ has neg
funded-reserves = refl

reserve_covered_example :
    (pos 30 +ℤ pos 20 ≡ pos 50)
    × (pos 0 ≤ℤ pos 30)
    × (balance_of (get alice (reserve_payment payment (after funded)).1.identities) ≡ pos 30)
reserve_covered_example =
    reserve_covered (after funded) payment account (pos 30) (after-Solvent funded) funded-account
      funded-reserves

abbrev held : List Call
held = mint coins 2 ∷ reserve payment ∷ []

abbrev pending : SpentRequestRecord
pending = record paid { status = SpentRequestStatus.reserved; response_bytes = none }

held-row : get request (after held).spent_requests ≡ some pending
unfolding run_calls perform reserve_payment commit_payment insert_and_credit_deposit insert_deposit
    credit_deposit get set append_ledger find_entry assert_balance_invariant set_deposit_in
    deposit_by_id_in deposit_key text_eq ◌+ℤ◌ ◌-ℤ◌ has neg
held-row = refl

abbrev debtor : IdentityRecord
debtor = record account { balance_sats = pos 30; last_request_at = some 6 }

held-account : get alice (after held).identities ≡ some debtor
unfolding run_calls perform reserve_payment commit_payment insert_and_credit_deposit insert_deposit
    credit_deposit get set append_ledger find_entry assert_balance_invariant set_deposit_in
    deposit_by_id_in deposit_key text_eq ◌+ℤ◌ ◌-ℤ◌ has neg
held-account = refl

late_commit_settles_example :
    let t = (rollback_payment request 8 (after held)).1 in
    let (r, u) = late_commit_payment request 9 10 t in
    (balance_of (get alice t.identities) ≡ pos 30 +ℤ pos 20)
    × (r ≡ ok (LateCommitResult.done (pos 30)))
    × (balance_of (get alice u.identities) ≡ pos 30)
    × (get request u.spent_requests
        ≡ get request (commit_payment request 9 8 (after held)).1.spent_requests)
late_commit_settles_example =
    late_commit_settles (after held) request pending debtor 9 8 10 (after-Solvent held) held-row
      refl held-account
