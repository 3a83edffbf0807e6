-- ===== src/Storage/Step/Distinct.antt =====
-- No two deposits of a storage have one id, so that a row of the list of deposits is the row that its
-- id finds.
use v.Base.{
  Bool, ℕ, ◌<◌, ◌≡◌, ◌≢◌, refl, sym, ap, ◌∙◌, false, inl, inr, none, some, [], ◌∷◌, List, arith,
  ◌==◌, ==_iff, Bool-cases,
}
use mathlib.Core.Path.{subst}
use mathlib.Core.Option.{some-injective}
use v.Base.Text.{Text, text_eq}
use v.Base.Dict.{Dict, get, set}
use v.Base.Sums.{AllValues, AllValues-set, AllValues-get, AllValues-map}
use v.Storage.Types.{DepositRecord}
use v.Storage.State.{Storage, deposit_by_id_in, set_deposit_in}
use v.Storage.Deposits.{filter_deposits}
use v.Storage.Step.{
  Step, burn, touch, debit, commit, refund, late_commit, purge, deposit, remine, confirm, credit,
  reverse, mark, aside, Steps, here, next,
}
use v.Storage.Step.Deposits.{
  Numbered, Steps-Numbered, AllValues-deposit_by_id, AllValues-set_deposit,
}

abbrev pub Distinct : Dict DepositRecord → Type 0
Distinct [] = Unit
Distinct ((k, d) ∷ m) = AllValues (λ x. x.id ≢ d.id) m × Distinct m

pub deposit_by_id-id :
    (id : ℕ) (d : DepositRecord) (m : Dict DepositRecord)
    → deposit_by_id_in id m ≡ some d
    → d.id ≡ id
unfolding deposit_by_id_in
deposit_by_id-id id d [] e = cc
deposit_by_id-id id d ((k, x) ∷ m) e = elim (Bool-cases (x.id == id)) [
  | inl same ↦ sym (ap (λ r. r.id) (some-injective x d (rw same at e))) ∙ (==_iff x.id id).0 same
  | inr other ↦ deposit_by_id-id id d m (rw other at e)
]

Distinct-set_deposit :
    (id : ℕ) (v : DepositRecord) (m : Dict DepositRecord)
    → v.id ≡ id
    → Distinct m
    → Distinct (set_deposit_in id v m)
unfolding set_deposit_in
Distinct-set_deposit id v [] e h = tt
Distinct-set_deposit id v ((k, x) ∷ m) e h = elim (Bool-cases (x.id == id)) [
  | inl same ↦
      rw same
        (AllValues-map _ _ m (λ y ne. λ eq. ne (eq ∙ e ∙ sym ((==_iff x.id id).0 same))) h.0, h.1)
  | inr other ↦
      rw other
        (AllValues-set_deposit _ id v m (ground arith) h.0, Distinct-set_deposit id v m e h.1)
]

Distinct-set_known :
    (k : Text) (v d : DepositRecord) (m : Dict DepositRecord)
    → get k m ≡ some d
    → v.id ≡ d.id
    → Distinct m
    → Distinct (set k v m)
unfolding get set
Distinct-set_known k v d [] found e h = cc
Distinct-set_known k v d ((j, x) ∷ m) found e h = elim (Bool-cases (text_eq j k)) [
  | inl same ↦
      let x_is = ap (λ r. r.id) (some-injective x d (rw same at found)) in
      rw same (AllValues-map _ _ m (λ y ne. λ eq. ne (eq ∙ e ∙ sym x_is)) h.0, h.1)
  | inr other ↦
      let later : get k m ≡ some d = rw other at found in
      rw other (
        AllValues-set _ k v m (λ eq. AllValues-get (λ y. y.id ≢ x.id) k d m h.0 later (sym e ∙ eq))
            h.0,
        Distinct-set_known k v d m later e h.1,
      )
]

Distinct-set_new :
    (k : Text) (v : DepositRecord) (m : Dict DepositRecord)
    → get k m ≡ none
    → AllValues (λ x. x.id < v.id) m
    → Distinct m
    → Distinct (set k v m)
unfolding get set
Distinct-set_new k v [] fresh below h = (tt, tt)
Distinct-set_new k v ((j, x) ∷ m) fresh below h = elim (Bool-cases (text_eq j k)) [
  | inl same ↦ absurd (cc (rw same at fresh))
  | inr other ↦ rw other (
    AllValues-set _ k v m (omega (arith, below.0)) h.0,
    Distinct-set_new k v m (rw other at fresh) below.1 h.1,
  )
]

abbrev pub HasDistinctIds : Storage → Type 0
HasDistinctIds s = Distinct s.deposits_by_key

Step-HasDistinctIds :
    {b : Bool} {s t : Storage} → Step b s t → Numbered s → HasDistinctIds s → HasDistinctIds t
Step-HasDistinctIds (burn k row fresh status e) n h = subst HasDistinctIds (sym e) h
Step-HasDistinctIds (touch k old new found same e) n h = subst HasDistinctIds (sym e) h
Step-HasDistinctIds (debit k row i at fresh status found covered e) n h =
    subst HasDistinctIds (sym e) h
Step-HasDistinctIds (commit k row bytes found status e) n h = subst HasDistinctIds (sym e) h
Step-HasDistinctIds (refund k row i reason at found status known e) n h =
    subst HasDistinctIds (sym e) h
Step-HasDistinctIds (late_commit k row i bytes at found status known e) n h =
    subst HasDistinctIds (sym e) h
Step-HasDistinctIds (purge cutoff untidy e) n h = subst HasDistinctIds (sym e) h
Step-HasDistinctIds {s} (deposit input fresh e) n h =
    subst HasDistinctIds (sym e) (Distinct-set_new _ _ s.deposits_by_key fresh n h)
Step-HasDistinctIds {s} (remine k d update found tidy e) n h =
    subst HasDistinctIds (sym e) (Distinct-set_known k _ d s.deposits_by_key found refl h)
Step-HasDistinctIds {s} (confirm id d c found e) n h =
    subst HasDistinctIds (sym e)
      (Distinct-set_deposit id _ s.deposits_by_key (deposit_by_id-id id d _ found) h)
Step-HasDistinctIds {s} (credit id d at found live fresh e) n h =
    subst HasDistinctIds (sym e)
      (Distinct-set_deposit id _ s.deposits_by_key (deposit_by_id-id id d _ found) h)
Step-HasDistinctIds {s} (reverse id d i at found live credited known e) n h =
    subst HasDistinctIds (sym e)
      (Distinct-set_deposit id _ s.deposits_by_key (deposit_by_id-id id d _ found) h)
Step-HasDistinctIds {s} (mark id d at found live unmoved e) n h =
    subst HasDistinctIds (sym e)
      (Distinct-set_deposit id _ s.deposits_by_key (deposit_by_id-id id d _ found) h)
Step-HasDistinctIds (aside ids ledger rows deposits count) n h = rw deposits h

pub Steps-HasDistinctIds :
    {b : Bool} {s t : Storage} → Steps b s t → Numbered s → HasDistinctIds s → HasDistinctIds t
Steps-HasDistinctIds here n h = h
Steps-HasDistinctIds (next r st) n h =
    Step-HasDistinctIds st (Steps-Numbered r n) (Steps-HasDistinctIds r n h)

-- The rows of a list of deposits that a map holds under their ids.
abbrev pub AllFound : Dict DepositRecord → List DepositRecord → Type 0
AllFound m [] = Unit
AllFound m (d ∷ ds) = (deposit_by_id_in d.id m ≡ some d) × AllFound m ds

AllFound-later :
    (k : Text) (x : DepositRecord) (m : Dict DepositRecord) (ds : List DepositRecord)
    → AllValues (λ y. y.id ≢ x.id) m
    → AllFound m ds
    → AllFound ((k, x) ∷ m) ds
unfolding deposit_by_id_in
AllFound-later k x m [] apart h = tt
AllFound-later k x m (d ∷ ds) apart h =
    let ne : d.id ≢ x.id = AllValues-deposit_by_id (λ y. y.id ≢ x.id) d.id d m apart h.0 in
    let other : (x.id == d.id) ≡ false = ground arith in
    (rw other h.0, AllFound-later k x m ds apart h.1)

pub filter_deposits-AllFound :
    (p : DepositRecord → Bool) (m : Dict DepositRecord)
    → Distinct m
    → AllFound m (filter_deposits p m)
unfolding filter_deposits deposit_by_id_in
filter_deposits-AllFound p [] h = tt
filter_deposits-AllFound p ((k, x) ∷ m) h =
    let rest = AllFound-later k x m (filter_deposits p m) h.0 (filter_deposits-AllFound p m h.1) in
    elim (Bool-cases (p x)) [
      | inl kept ↦ rw kept (rw ((==_iff x.id x.id).1 refl) refl, rest)
      | inr dropped ↦ rw dropped rest
    ]
