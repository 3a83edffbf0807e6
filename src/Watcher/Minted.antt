-- ===== src/Watcher/Minted.antt =====
-- What the deposits of packages/deposit-watcher/src/simulated-watcher.ts do to the sums that the
-- crosscheck with the chain reads.
use v.Base.{
  ℕ, ◌≡◌, ◌⊎◌, refl, ap, ◌∙◌, inl, inr, true, none, some, List, [], ◌∷◌, ◌==◌, arith, Bool-cases,
}
use mathlib.Core.Option.{some-injective}
use v.Base.Int.{ℤ, ◌+ℤ◌}
use v.Base.Text.{Text, text_eq, text_eq_refl}
use v.Base.Dict.{Dict, get, has, set, get-set}
use v.Protocol.Headers.{normalize_identity_key}
use v.Storage.Types.{DepositRecord, InsertDepositInput, InsertAndCreditResult, duplicate_deposit}
use v.Storage.State.{Storage, Result, ok, throw, ◌>>=◌, deposit_by_id_in, set_deposit_in}
use v.Storage.Deposits.{
  deposit_key, is_new, is_simulated, new_deposit, with_new_deposit, insert_and_credit_deposit,
  sum_credited_in, sum_credited_deposits,
}
use v.Storage.Calls.Deposits.{credited, credit_deposit-credits}
use v.Storage.Step.Solvent.{Solvent, credit_target-balance}
use v.Storage.Solvency.{balance_of}
use v.Storage.Refine.Deposits.{has-eq-false}
use v.Storage.Step.Deposits.{Numbered, deposit_by_id-set}
use v.Storage.History.{Call}
use v.Storage.History.Invariants.{after, after-Solvent, after-Numbered}
use v.Watcher.Simulated.{
  SimulatedDepositWatcher, SimulateDepositInput, simulated_input, simulate_deposit,
}

-- Rows of the other origin in place of, or after, what a map holds.
real_sum-set_deposit :
    (id : ℕ) (old new : DepositRecord) (m : Dict DepositRecord)
    → deposit_by_id_in id m ≡ some old
    → is_simulated old.origin ≡ true
    → is_simulated new.origin ≡ true
    → sum_credited_in true (set_deposit_in id new m) ≡ sum_credited_in true m
unfolding deposit_by_id_in set_deposit_in sum_credited_in
real_sum-set_deposit id old new [] found h h' = cc
real_sum-set_deposit id old new ((k, x) ∷ m) found h h' = elim (Bool-cases (x.id == id)) [
  | inl same ↦
      let x_is : is_simulated x.origin ≡ true =
        ap (λ r. is_simulated r.origin) (some-injective x old (rw same at found)) ∙ h in
      rw same (rw (h', x_is) (ground arith))
  | inr other ↦ rw other (rw (real_sum-set_deposit id old new m (rw other at found) h h') refl)
]

real_sum-set :
    (k : Text) (new : DepositRecord) (m : Dict DepositRecord)
    → get k m ≡ none
    → is_simulated new.origin ≡ true
    → sum_credited_in true (set k new m) ≡ sum_credited_in true m
unfolding get set sum_credited_in
real_sum-set k new [] fresh h = rw h (ground arith)
real_sum-set k new ((j, x) ∷ m) fresh h = elim (Bool-cases (text_eq j k)) [
  | inl same ↦ absurd (cc (rw same at fresh))
  | inr other ↦ rw other (rw (real_sum-set k new m (rw other at fresh) h) refl)
]

-- The answer to a mint.
abbrev minted_answer : InsertDepositInput → ℕ → Storage → ℤ → InsertAndCreditResult
minted_answer input at s balance = record {
  deposit = record (new_deposit input s) { credited_at = some at };
  balance_after_sats = balance;
  identity_created = is_new (get input.identity_id s.identities);
}

-- In a solvent storage with numbered deposits, a mint meets a row with its key and changes nothing,
-- or credits a new row.
mint-cases :
    (input : InsertDepositInput) (at : ℕ) (s : Storage)
    → Solvent s
    → Numbered s
    → ((k : Text) × (insert_and_credit_deposit input at s ≡ (throw (duplicate_deposit k), s)))
      ⊎ ((get (deposit_key input.txid input.vout) s.deposits_by_key ≡ none)
          × (deposit_by_id_in s.next_deposit_id
                (set (deposit_key input.txid input.vout) (new_deposit input s) s.deposits_by_key)
              ≡ some (new_deposit input s))
          × (insert_and_credit_deposit input at s ≡ (
            ok (
                minted_answer input at s
                  (balance_of (get input.identity_id s.identities) +ℤ input.amount_sats)),
            credited s.next_deposit_id (new_deposit input s) at (with_new_deposit input s),
          )))
unfolding insert_and_credit_deposit
mint-cases input at s h numbered =
    let key = deposit_key input.txid input.vout in
    let d = new_deposit input s in
    elim (Bool-cases (has key s.deposits_by_key)) [
      | inl present ↦ inl (key, rw present refl)
      | inr fresh ↦
          let new = has-eq-false key s.deposits_by_key fresh in
          let found = deposit_by_id-set key d s.deposits_by_key numbered new in
          let e =
            credit_deposit-credits (with_new_deposit input s) h s.next_deposit_id d at found refl
              refl in
          inr (
            new,
            found,
            rw fresh (
                rw (e, ◌>>=◌)
                  (rw e (
                    ap
                      (λ b. (
                        ok (minted_answer input at s (b +ℤ input.amount_sats)),
                        credited s.next_deposit_id d at (with_new_deposit input s),
                      ))
                      (credit_target-balance d at (get d.identity_id s.identities))))),
          )
    ]

-- The balance after a credit.
credited-balance :
    (id at : ℕ) (d : DepositRecord) (s : Storage)
    → balance_of (get d.identity_id (credited id d at s).identities)
      ≡ balance_of (get d.identity_id s.identities) +ℤ d.amount_sats
credited-balance id at d s =
    ap balance_of (get-set d.identity_id d.identity_id _ s.identities)
    ∙ (rw (text_eq_refl d.identity_id)
        (rw (credit_target-balance d at (get d.identity_id s.identities)) refl))

abbrev pub Mints : Text → ℤ → Result InsertAndCreditResult × Storage → Storage → Type 0
Mints identity_id amount (r, t) s =
    ((k : Text) × (r ≡ throw (duplicate_deposit k)) × (t ≡ s))
    ⊎ ((answer : InsertAndCreditResult) × (r ≡ ok answer)
        × (answer.balance_after_sats ≡ balance_of (get identity_id s.identities) +ℤ amount)
        × (balance_of (get identity_id t.identities) ≡ answer.balance_after_sats))

mint-Mints :
    (input : InsertDepositInput) (at : ℕ) (s : Storage)
    → Solvent s
    → Numbered s
    → is_simulated input.origin ≡ true
    → Mints input.identity_id input.amount_sats (insert_and_credit_deposit input at s) s
      × (sum_credited_deposits true (insert_and_credit_deposit input at s).1
          ≡ sum_credited_deposits true s)
unfolding sum_credited_deposits
mint-Mints input at s h n sim = elim (mint-cases input at s h n) [
  | inl (k, refused) ↦ (
    inl (k, ap (λ p. p.0) refused, ap (λ p. p.1) refused),
    ap (λ p. sum_credited_in true p.1.deposits_by_key) refused,
  )
  | inr (fresh, found, minted) ↦
      let d = new_deposit input s in
      (
        inr (
          _,
          ap (λ p. p.0) minted,
          refl,
          ap (λ p. balance_of (get input.identity_id p.1.identities)) minted
              ∙ credited-balance s.next_deposit_id at d (with_new_deposit input s),
        ),
        ap (λ p. sum_credited_in true p.1.deposits_by_key) minted
            ∙ real_sum-set_deposit s.next_deposit_id d (record d { credited_at = some at })
                (set (deposit_key input.txid input.vout) d s.deposits_by_key) found sim sim
            ∙ real_sum-set (deposit_key input.txid input.vout) d s.deposits_by_key fresh sim,
      )
]

-- In a storage that some calls of its methods have built, a simulated deposit is refused as a
-- duplicate and changes nothing, or it raises the balance of the normalized identity by its amount
-- and answers that balance. Either way the sum of the credited deposits that are not simulated,
-- which is what is compared with the chain, stays as it was.
pub simulate_deposit-Mints :
    (lower trim : Text → Text) (input : SimulateDepositInput) (uuid : Text) (now : ℕ)
    (f : SimulatedDepositWatcher) (cs : List Call)
    → let p = simulate_deposit lower trim input uuid now (f, after cs) in
      Mints
        (normalize_identity_key lower trim input.identity)
        input.amount_sats
        (p.0, p.1.1)
        (after cs)
      × (sum_credited_deposits true p.1.1 ≡ sum_credited_deposits true (after cs))
unfolding simulate_deposit
simulate_deposit-Mints lower trim input uuid now f cs =
    mint-Mints (simulated_input lower trim f input uuid now) now (after cs) (after-Solvent cs)
      (after-Numbered cs) refl
