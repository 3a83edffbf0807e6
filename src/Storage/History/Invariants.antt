-- ===== src/Storage/History/Invariants.antt =====
-- What holds after every sequence of calls, from the empty storage.
use v.Base.{Bool, true, false, inr, ◌≡◌, refl, Option, none, some, List, [], ◌∷◌, sym}
use mathlib.Core.Path.{subst}
use v.Base.Int.{◌+ℤ◌}
use v.Storage.Types.{DepositRecord, Thrown, duplicate_deposit, solvency_violated, credit_failed}
use v.Base.Dict.{get}
use v.Base.Sums.{sum_by}
use v.Storage.State.{Storage, find_entry, empty_storage, Result, ok, throw}
use v.Storage.Requests.{
  reserve_payment, commit_payment, rollback_payment, late_commit_payment, reap_expired_reservations,
  cleanup_spent_requests, record_balance_query,
}
use v.Storage.Deposits.{
  deposit_key, insert_deposit, remine_deposit, update_deposit_confirmations, credit_deposit,
  insert_and_credit_deposit, mark_deposit_reorged,
}
use v.Storage.Records.{
  block_identity, unblock_identity, set_watcher_cursor, record_reconciliation_run,
}
use v.Storage.Solvency.{sum_entries}
use v.Storage.Step.Funded.{Funded, Steps-Funded}
use v.Storage.Step.Accounts.{IsAccounted}
use v.Storage.Step.Accounts.Kept.{Steps-IsAccounted}
use v.Storage.Step.{Steps, here, Steps-trans}
use v.Storage.Step.Solvent.{Solvent, Steps-Solvent}
use v.Storage.Step.Deposits.{Numbered, Steps-Numbered}
use v.Storage.Step.Distinct.{HasDistinctIds, Steps-HasDistinctIds}
use v.Storage.Refine.{Refines, Completes}
use v.Storage.Refine.Requests
use v.Storage.Refine.Deposits
use v.Storage.Refine.Deposits.{IsTidyRemine}
use v.Storage.History.{
  Call, reserve, commit, rollback, late_commit, reap, cleanup, balance_query, insert, remine,
  confirm, credit, mint, reorg, block, unblock, set_cursor, record_run, settle, perform, run_calls,
}

-- What a settled call may look like, from a storage that earlier calls have built.
abbrev pub IsSettled : Bool → Storage → Option Thrown × Storage → Type 0
IsSettled b s (none, t) = Steps b s t
IsSettled b s (some (duplicate_deposit _), t) = t ≡ s
IsSettled b s (some (solvency_violated _), t) = ⊥
IsSettled b s (some (credit_failed _), t) = ⊥

settle-IsSettled :
    {A : Type 0} (b : Bool) (s : Storage) (p : Result A × Storage)
    → Refines b s p
    → IsSettled b s (settle p)
settle-IsSettled b s (ok a, t) h = h
settle-IsSettled b s (throw (duplicate_deposit k), t) h = h
settle-IsSettled b s (throw (solvency_violated k), t) h = absurd h
settle-IsSettled b s (throw (credit_failed r), t) h = absurd h

Completes-IsSettled :
    {A : Type 0} (b : Bool) (s : Storage) (p : Result A × Storage)
    → Completes b s p
    → IsSettled b s (settle p)
Completes-IsSettled b s (ok a, t) h = h
Completes-IsSettled b s (throw e, t) h = absurd h

-- A tidy call forgets no request, and finds no deposit in another block whose credit still counts.
abbrev pub IsTidyCall : Bool → Call → Storage → Type 0
IsTidyCall b (cleanup cutoff) s = b ≡ false
IsTidyCall b (remine txid vout update) s =
    IsTidyRemine b (get (deposit_key txid vout) s.deposits_by_key)
IsTidyCall b _ s = Unit

pub any_remine : (o : Option DepositRecord) → IsTidyRemine false o
any_remine none = tt
any_remine (some d) = inr refl

-- Any call will do where nothing is asked.
any_call : (c : Call) (s : Storage) → IsTidyCall false c s
any_call (cleanup cutoff) s = refl
any_call (remine txid vout update) s = any_remine (get (deposit_key txid vout) s.deposits_by_key)
any_call _ s = tt

abbrev pub IsTidy : List Call → Storage → Type 0
IsTidy [] s = Unit
IsTidy (c ∷ cs) s = IsTidyCall true c s × IsTidy cs (perform c s).1

pub perform-IsSettled :
    (b : Bool) (c : Call) (s : Storage)
    → Solvent s
    → Numbered s
    → IsTidyCall b c s
    → IsSettled b s (perform c s)
unfolding perform
perform-IsSettled b (reserve input) s h n tidy =
    Completes-IsSettled b s (reserve_payment input s) (Requests.reserve-Completes b s h input)
perform-IsSettled b (commit k bytes at) s h n tidy =
    Completes-IsSettled b s (commit_payment k bytes at s)
      (Requests.commit-Completes b s h k bytes at)
perform-IsSettled b (rollback k at) s h n tidy =
    Completes-IsSettled b s (rollback_payment k at s) (Requests.rollback-Completes b s h k at)
perform-IsSettled b (late_commit k bytes at) s h n tidy =
    Completes-IsSettled b s (late_commit_payment k bytes at s)
      (Requests.late_commit-Completes b s h k bytes at)
perform-IsSettled b (reap cutoff at) s h n tidy =
    Completes-IsSettled b s (reap_expired_reservations cutoff at s)
      (Requests.reap-Completes b cutoff at s h)
perform-IsSettled b (cleanup cutoff) s h n tidy =
    Completes-IsSettled b s (cleanup_spent_requests cutoff s)
      (Requests.cleanup-Completes b s h cutoff tidy)
perform-IsSettled b (balance_query input) s h n tidy =
    Completes-IsSettled b s (record_balance_query input s)
      (Requests.balance_query-Completes b s h input)
perform-IsSettled b (insert input) s h n tidy =
    settle-IsSettled b s (insert_deposit input s) (Deposits.insert_deposit-Refines b s h input)
perform-IsSettled b (remine txid vout update) s h n tidy =
    Completes-IsSettled b s (remine_deposit txid vout update s)
      (Deposits.remine-Completes b s h txid vout update tidy)
perform-IsSettled b (confirm id c) s h n tidy =
    Completes-IsSettled b s (update_deposit_confirmations id c s)
      (Deposits.confirmations-Completes b s h id c)
perform-IsSettled b (credit id at) s h n tidy =
    Completes-IsSettled b s (credit_deposit id at s) (Deposits.credit-Completes b s h id at)
perform-IsSettled b (mint input at) s h n tidy =
    settle-IsSettled b s (insert_and_credit_deposit input at s)
      (Deposits.mint-Refines b s input at h n)
perform-IsSettled b (reorg id at) s h n tidy =
    Completes-IsSettled b s (mark_deposit_reorged id at s) (Deposits.reorg-Completes b s h id at)
perform-IsSettled b (block r) s h n tidy =
    Completes-IsSettled b s (block_identity r s) (Deposits.block-Completes b s h r)
perform-IsSettled b (unblock id) s h n tidy =
    Completes-IsSettled b s (unblock_identity id s) (Deposits.unblock-Completes b s h id)
perform-IsSettled b (set_cursor key c) s h n tidy =
    Completes-IsSettled b s (set_watcher_cursor key c s) (Deposits.cursor-Completes b s h key c)
perform-IsSettled b (record_run run) s h n tidy =
    Completes-IsSettled b s (record_reconciliation_run run s)
      (Deposits.run_record-Completes b s h run)

settled-Steps :
    (b : Bool) (s : Storage) (p : Option Thrown × Storage) → IsSettled b s p → Steps b s p.1
settled-Steps b s (none, t) h = h
settled-Steps b s (some (duplicate_deposit k), t) h = subst (Steps b s) (sym h) here
settled-Steps b s (some (solvency_violated k), t) h = absurd h
settled-Steps b s (some (credit_failed r), t) h = absurd h

pub run_calls-Steps :
    (cs : List Call) (s : Storage) → Solvent s → Numbered s → Steps false s (run_calls cs s)
unfolding run_calls
run_calls-Steps [] s h n = here
run_calls-Steps (c ∷ cs) s h n =
    let first =
      settled-Steps false s (perform c s) (perform-IsSettled false c s h n (any_call c s)) in
    Steps-trans first
      (run_calls-Steps cs (perform c s).1 (Steps-Solvent first h) (Steps-Numbered first n))

pub run_calls-Steps_tidy :
    (cs : List Call) (s : Storage)
    → Solvent s
    → Numbered s
    → IsTidy cs s
    → Steps true s (run_calls cs s)
unfolding run_calls
run_calls-Steps_tidy [] s h n tidy = here
run_calls-Steps_tidy (c ∷ cs) s h n (now, later) =
    let first = settled-Steps true s (perform c s) (perform-IsSettled true c s h n now) in
    Steps-trans first (
      run_calls-Steps_tidy cs (perform c s).1 (Steps-Solvent first h) (Steps-Numbered first n)
        later)

empty-Solvent : Solvent empty_storage
unfolding get find_entry sum_entries
empty-Solvent id = refl

empty-IsAccounted : IsAccounted empty_storage
unfolding get sum_by ◌+ℤ◌
empty-IsAccounted id = refl

-- A storage that some calls have built.
abbrev pub after : List Call → Storage
after cs = run_calls cs empty_storage

pub after-Steps : (cs : List Call) → Steps false empty_storage (after cs)
after-Steps cs = run_calls-Steps cs empty_storage empty-Solvent tt

pub after-Solvent : (cs : List Call) → Solvent (after cs)
after-Solvent cs = Steps-Solvent (after-Steps cs) empty-Solvent

pub after-Numbered : (cs : List Call) → Numbered (after cs)
after-Numbered cs = Steps-Numbered (after-Steps cs) tt

pub after-HasDistinctIds : (cs : List Call) → HasDistinctIds (after cs)
after-HasDistinctIds cs = Steps-HasDistinctIds (after-Steps cs) tt tt

pub after-Funded : (cs : List Call) → Funded (after cs)
after-Funded cs = Steps-Funded (after-Steps cs) (tt, tt)

-- After any sequence of calls, each further call either succeeds, and its effect is a run of steps
-- of the abstract view, or throws for a duplicate deposit and changes nothing: neither the
-- solvency check nor the credit inside a mint ever fails.
pub perform-refines :
    (cs : List Call) (c : Call) → IsSettled false (after cs) (perform c (after cs))
perform-refines cs c =
    perform-IsSettled false c (after cs) (after-Solvent cs) (after-Numbered cs)
      (any_call c (after cs))

-- After any sequence of calls that cleans up no request and re-mines no deposit whose credit still
-- counts, an identity's balance with the amounts of its reserved and committed requests is the sum
-- of its credited deposits that were not reorged: money is neither made nor lost.
pub after-IsAccounted : (cs : List Call) → IsTidy cs empty_storage → IsAccounted (after cs)
after-IsAccounted cs tidy =
    Steps-IsAccounted (run_calls-Steps_tidy cs empty_storage empty-Solvent tt tidy) (tt, tt)
      empty-IsAccounted
