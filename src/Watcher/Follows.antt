-- ===== src/Watcher/Follows.antt =====
-- What confirming and crediting a deposit (packages/storage/src/memory.ts) leave as it was in every
-- row, and what a credit does when it succeeds.
use v.Base.{
  ℕ, ◌≡◌, refl, sym, ◌∙◌, ◌⊎◌, inl, inr, Bool, true, false, some, [], ◌∷◌, ◌==◌, ==_iff, arith,
  Bool-cases, Option-cases, if◌then◌else◌,
}
use mathlib.Core.Path.{subst}
use mathlib.Core.Option.{some-injective}
use v.Base.Int.{ℤ}
use v.Base.Dict.{Dict}
use v.Storage.Types.{DepositRecord, CreditDepositResult, CreditFailure}
use v.Storage.State.{Storage, ok, deposit_by_id, deposit_by_id_in, set_deposit_in}
use v.Storage.Deposits.{is_set, update_deposit_confirmations, credit_deposit}
use v.Storage.Step.Solvent.{Solvent, Steps-Solvent}
use v.Storage.Step.Distinct.{deposit_by_id-id}
use v.Storage.Step.{with_deposit, one-Step, credit}
use v.Storage.Calls.Deposits.{credited, credit_deposit-credits}

-- The second row is the first, as far as its sender, its block and a reorg go, and a credit stays.
abbrev pub Agrees : DepositRecord → DepositRecord → Type 0
Agrees d e =
    (e.identity_id ≡ d.identity_id)
    × (e.block_height ≡ d.block_height)
    × (e.block_hash ≡ d.block_hash)
    × (e.reorged_at ≡ d.reorged_at)
    × (is_set d.credited_at ≡ true → is_set e.credited_at ≡ true)

pub Agrees-trans : (c d e : DepositRecord) → Agrees c d → Agrees d e → Agrees c e
Agrees-trans c d e (a1, a2, a3, a4, a5) (b1, b2, b3, b4, b5) =
    (b1 ∙ a1, b2 ∙ a2, b3 ∙ a3, b4 ∙ a4, λ p. b5 (a5 p))

abbrev pub Follows : Dict DepositRecord → Dict DepositRecord → Type 0
Follows m n =
    (id : ℕ) (d : DepositRecord)
    → deposit_by_id_in id m ≡ some d
    → (e : DepositRecord) × (deposit_by_id_in id n ≡ some e) × Agrees d e

pub unmoved : (m : Dict DepositRecord) → Follows m m
unmoved m id d found = (d, found, (refl, refl, refl, refl, λ p. p))

pub deposit_by_id-set_deposit :
    (j id : ℕ) (old new : DepositRecord) (m : Dict DepositRecord)
    → deposit_by_id_in id m ≡ some old
    → new.id ≡ id
    → deposit_by_id_in j (set_deposit_in id new m)
      ≡ (if id == j then some new else deposit_by_id_in j m)
unfolding deposit_by_id_in set_deposit_in
deposit_by_id-set_deposit j id old new [] found e = cc
deposit_by_id-set_deposit j id old new ((k, x) ∷ m) found e = elim (Bool-cases (x.id == id)) [
  | inl same ↦ rw same (ground arith)
  | inr other ↦
      rw other (ground (arith, deposit_by_id-set_deposit j id old new m (rw other at found) e))
]

pub set_deposit-Follows :
    (id : ℕ) (old new : DepositRecord) (m : Dict DepositRecord)
    → deposit_by_id_in id m ≡ some old
    → new.id ≡ id
    → Agrees old new
    → Follows m (set_deposit_in id new m)
set_deposit-Follows id old new m found e agrees j d there =
    let at = deposit_by_id-set_deposit j id old new m found e in
    elim (Bool-cases (id == j)) [
      | inl same ↦
          let here : deposit_by_id_in id m ≡ some d =
            subst (λ i. deposit_by_id_in i m ≡ some d) (sym ((==_iff id j).0 same)) there in
          (
            new,
            rw same at at,
            subst (λ d'. Agrees d' new) (some-injective old d (sym found ∙ here)) agrees,
          )
      | inr other ↦ (d, (rw other at at) ∙ there, (refl, refl, refl, refl, λ p. p))
    ]

-- Confirmations are counted without an exception.
pub confirm-Follows :
    (id : ℕ) (n : ℤ) (s : Storage)
    → (t : Storage) × (update_deposit_confirmations id n s ≡ (ok tt, t))
      × Follows s.deposits_by_key t.deposits_by_key
      × (Solvent s → Solvent t)
unfolding update_deposit_confirmations
confirm-Follows id n s = elim (Option-cases (deposit_by_id id s)) [
  | inl missing ↦
      (s, rw (missing, update_deposit_confirmations) refl, unmoved s.deposits_by_key, λ h. h)
  | inr (d, found) ↦ (
    with_deposit id (record d { input = record (d.input) { confirmations = n } }) s,
    rw (found, update_deposit_confirmations) refl,
    set_deposit-Follows id d _ s.deposits_by_key found (deposit_by_id-id id d _ found)
        (refl, refl, refl, refl, λ p. p),
    λ h. h,
  )
]

-- In a solvent storage a credit changes nothing, or it credits the row that its id finds.
pub credit-cases :
    (id at : ℕ) (s : Storage)
    → Solvent s
    → ((reason : CreditFailure) × (credit_deposit id at s
          ≡ (ok (CreditDepositResult.not_done reason), s)))
      ⊎ ((d : DepositRecord) × (deposit_by_id id s ≡ some d)
          × (is_set d.reorged_at ≡ false)
          × ((balance : ℤ) × (created : Bool) × (credit_deposit id at s
                ≡ (ok (CreditDepositResult.done balance created), credited id d at s))
              × Solvent (credited id d at s)))
unfolding credit_deposit
credit-cases id at s h = elim (Option-cases (deposit_by_id id s)) [
  | inl missing ↦ inl (CreditFailure.not_found, rw (missing, credit_deposit) refl)
  | inr (d, found) ↦ elim (Bool-cases (is_set d.reorged_at)) [
    | inl gone ↦ inl (CreditFailure.reorged, rw (found, credit_deposit) (rw gone refl))
    | inr live ↦ elim (Bool-cases (is_set d.credited_at)) [
      | inl before ↦
          inl (CreditFailure.already_credited, rw (found, credit_deposit) (rw (live, before) refl))
      | inr fresh ↦ inr (
        d,
        found,
        live,
        (
          _,
          _,
          credit_deposit-credits s h id d at found live fresh,
          Steps-Solvent
              (one-Step {tidy = true} {s = s} {t = credited id d at s}
                (credit id d at found live fresh refl))
              h,
        ),
      )
    ]
  ]
]

pub credited-Follows :
    (id at : ℕ) (d : DepositRecord) (s : Storage)
    → deposit_by_id id s ≡ some d
    → Follows s.deposits_by_key (credited id d at s).deposits_by_key
credited-Follows id at d s found =
    set_deposit-Follows id d (record d { credited_at = some at }) s.deposits_by_key found
      (deposit_by_id-id id d _ found) (refl, refl, refl, refl, λ p. refl)
