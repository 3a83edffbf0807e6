-- ===== src/Storage/Step/Deposits.antt =====
-- The deposits of a storage are numbered below the next id, and are found again by their id.
use v.Base.{
  Bool, ℕ, ◌+◌, ◌<◌, ◌≡◌, refl, sym, ap, false, inl, inr, none, some, [], ◌∷◌, arith, ◌==◌, ==_iff,
  Bool-cases,
}
use mathlib.Core.Path.{subst}
use mathlib.Core.Option.{some-injective}
use v.Base.Int.{ℤ, ◌+ℤ◌, int_laws}
use v.Base.Text.{Text, text_eq}
use v.Base.Dict.{Dict, get, set}
use v.Base.Sums.{sum_by, AllValues, AllValues-set, AllValues-get, AllValues-map}
use v.Storage.Types.{DepositRecord}
use v.Storage.State.{Storage, deposit_by_id_in, set_deposit_in}
use v.Storage.Step.{
  Step, burn, touch, debit, commit, refund, late_commit, purge, deposit, remine, confirm, credit,
  reverse, mark, aside, Steps, here, next,
}

module _ {κ} (P : DepositRecord → Type κ) where
  pub AllValues-deposit_by_id :
      (id : ℕ) (d : DepositRecord) (m : Dict DepositRecord)
      → AllValues P m
      → deposit_by_id_in id m ≡ some d
      → P d
  unfolding deposit_by_id_in
  AllValues-deposit_by_id id d [] h e = cc
  AllValues-deposit_by_id id d ((k, x) ∷ m) h e = elim (Bool-cases (x.id == id)) [
    | inl same ↦ subst P (some-injective x d (rw same at e)) h.0
    | inr other ↦ AllValues-deposit_by_id id d m h.1 (rw other at e)
  ]

  pub AllValues-set_deposit :
      (id : ℕ) (d : DepositRecord) (m : Dict DepositRecord)
      → P d
      → AllValues P m
      → AllValues P (set_deposit_in id d m)
  unfolding set_deposit_in
  AllValues-set_deposit id d [] p h = tt
  AllValues-set_deposit id d ((k, x) ∷ m) p h = elim (Bool-cases (x.id == id)) [
    | inl same ↦ rw same (p, h.1)
    | inr other ↦ rw other (h.0, AllValues-set_deposit id d m p h.1)
  ]

-- A sum over the deposits, when the one that an id finds is replaced.
pub sum_by-set_deposit :
    (w : DepositRecord → ℤ) (id : ℕ) (old new : DepositRecord) (m : Dict DepositRecord)
    → deposit_by_id_in id m ≡ some old
    → sum_by w (set_deposit_in id new m) +ℤ w old ≡ sum_by w m +ℤ w new
unfolding deposit_by_id_in set_deposit_in sum_by
sum_by-set_deposit w id old new [] e = cc
sum_by-set_deposit w id old new ((k, x) ∷ m) e = elim (Bool-cases (x.id == id)) [
  | inl same ↦ rw same (rw (ap w (some-injective x old (rw same at e))) (omega int_laws))
  | inr other ↦ rw other (grind (int_laws, sum_by-set_deposit w id old new m (rw other at e)))
]

-- A new deposit is found under its id.
pub deposit_by_id-set :
    (k : Text) (d : DepositRecord) (m : Dict DepositRecord)
    → AllValues (λ x. x.id < d.id) m
    → get k m ≡ none
    → deposit_by_id_in d.id (set k d m) ≡ some d
unfolding deposit_by_id_in set get
deposit_by_id-set k d [] h fresh = rw ((==_iff d.id d.id).1 refl)
deposit_by_id-set k d ((j, x) ∷ m) h fresh = elim (Bool-cases (text_eq j k)) [
  | inl same ↦ absurd (cc (rw same at fresh))
  | inr other ↦ rw other (
      let ne : (x.id == d.id) ≡ false = ground arith in
      rw ne (deposit_by_id-set k d m h.1 (rw other at fresh)))
]

abbrev pub Numbered : Storage → Type 0
Numbered s = AllValues (λ d. d.id < s.next_deposit_id) s.deposits_by_key

pub Step-Numbered : {b : Bool} {s t : Storage} → Step b s t → Numbered s → Numbered t
Step-Numbered (burn k row fresh status e) h = subst Numbered (sym e) h
Step-Numbered (touch k old new found same e) h = subst Numbered (sym e) h
Step-Numbered (debit k row i at fresh status found covered e) h = subst Numbered (sym e) h
Step-Numbered (commit k row bytes found status e) h = subst Numbered (sym e) h
Step-Numbered (refund k row i reason at found status known e) h = subst Numbered (sym e) h
Step-Numbered (late_commit k row i bytes at found status known e) h = subst Numbered (sym e) h
Step-Numbered (purge cutoff untidy e) h = subst Numbered (sym e) h
Step-Numbered {s} (deposit input fresh e) h = subst Numbered (sym e) (
    AllValues-set (λ d. d.id < s.next_deposit_id + 1) _ _ s.deposits_by_key (omega arith)
      (AllValues-map _ _ s.deposits_by_key (λ d p. omega arith) h))
Step-Numbered {s} (remine k d update found tidy e) h =
    subst Numbered (sym e)
      (AllValues-set _ k _ s.deposits_by_key (AllValues-get _ k d s.deposits_by_key h found) h)
Step-Numbered {s} (confirm id d n found e) h = subst Numbered (sym e) (
    AllValues-set_deposit _ id _ s.deposits_by_key
      (AllValues-deposit_by_id _ id d s.deposits_by_key h found) h)
Step-Numbered {s} (credit id d at found live fresh e) h = subst Numbered (sym e) (
    AllValues-set_deposit _ id _ s.deposits_by_key
      (AllValues-deposit_by_id _ id d s.deposits_by_key h found) h)
Step-Numbered {s} (reverse id d i at found live credited known e) h = subst Numbered (sym e) (
    AllValues-set_deposit _ id _ s.deposits_by_key
      (AllValues-deposit_by_id _ id d s.deposits_by_key h found) h)
Step-Numbered {s} (mark id d at found live unmoved e) h = subst Numbered (sym e) (
    AllValues-set_deposit _ id _ s.deposits_by_key
      (AllValues-deposit_by_id _ id d s.deposits_by_key h found) h)
Step-Numbered (aside ids ledger rows deposits count) h = rw (deposits, count) h

pub Steps-Numbered : {b : Bool} {s t : Storage} → Steps b s t → Numbered s → Numbered t
Steps-Numbered here h = h
Steps-Numbered (next r st) h = Step-Numbered st (Steps-Numbered r h)
