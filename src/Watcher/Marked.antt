-- ===== src/Watcher/Marked.antt =====
-- What marking deposits as reorged (packages/storage/src/memory.ts) leaves as it was in every row.
use v.Base.{
  ℕ, ◌≡◌, refl, sym, ap, ◌∙◌, inl, inr, Bool, true, false, none, some, List, [], ◌∷◌, ◌==◌, ==_iff,
  Bool-cases, Option-cases,
}
use mathlib.Core.Path.{subst}
use mathlib.Core.Option.{some-injective}
use v.Base.Dict.{Dict, get}
use v.Storage.Types.{DepositRecord, MarkReorgedResult, ReorgFailure}
use v.Storage.State.{Storage, ok, deposit_by_id, deposit_by_id_in, set_deposit_in}
use v.Storage.Deposits.{is_set, filter_deposits, mark_deposit_reorged}
use v.Storage.Step.{one-Step, reverse, with_deposit}
use v.Storage.Step.Solvent.{Solvent, Steps-Solvent}
use v.Storage.Step.Distinct.{deposit_by_id-id}
use v.Storage.Calls.Deposits.{reversed, mark_deposit_reorged-reverses, mark_deposit_reorged-marks}
use v.Watcher.Follows.{deposit_by_id-set_deposit}

-- A row of the second map was in the first, in the same block, and a reorg stays.
abbrev pub Marked : Dict DepositRecord → Dict DepositRecord → Type 0
Marked m n =
    (id : ℕ) (e : DepositRecord)
    → deposit_by_id_in id n ≡ some e
    → (d : DepositRecord) × (deposit_by_id_in id m ≡ some d)
      × (d.block_height ≡ e.block_height)
      × (d.block_hash ≡ e.block_hash)
      × (is_set e.reorged_at ≡ false → is_set d.reorged_at ≡ false)

pub unmarked : (m : Dict DepositRecord) → Marked m m
unmarked m id e there = (e, there, refl, refl, λ p. p)

pub Marked-trans : (l m n : Dict DepositRecord) → Marked l m → Marked m n → Marked l n
Marked-trans l m n f g id e there =
    let (d, in_m, height, hash, live) = g id e there in
    let (c, in_l, height', hash', live') = f id d in_m in
    (c, in_l, height' ∙ height, hash' ∙ hash, λ p. live' (live p))

pub set_reorged-Marked :
    (id at : ℕ) (old : DepositRecord) (m : Dict DepositRecord)
    → deposit_by_id_in id m ≡ some old
    → Marked m (set_deposit_in id (record old { reorged_at = some at }) m)
set_reorged-Marked id at old m found j e there =
    let new : DepositRecord = record old { reorged_at = some at } in
    let at_j = deposit_by_id-set_deposit j id old new m found (deposit_by_id-id id old m found) in
    elim (Bool-cases (id == j)) [
      | inl same ↦
          let e_is : new ≡ e = some-injective new e (sym (rw same at at_j) ∙ there) in
          (
            old,
            subst (λ i. deposit_by_id_in i m ≡ some old) ((==_iff id j).0 same) found,
            ap (λ r. r.block_height) e_is,
            ap (λ r. r.block_hash) e_is,
            λ p. absurd (cc (ap (λ r. is_set r.reorged_at) e_is, p)),
          )
      | inr other ↦ (e, sym (rw other at at_j) ∙ there, refl, refl, λ p. p)
    ]

-- What a mark leaves: no row under the id that is not reorged.
abbrev pub Gone : ℕ → Dict DepositRecord → Type 0
Gone id m = (e : DepositRecord) → deposit_by_id_in id m ≡ some e → is_set e.reorged_at ≡ true

set_reorged-Gone :
    (id at : ℕ) (old : DepositRecord) (m : Dict DepositRecord)
    → deposit_by_id_in id m ≡ some old
    → Gone id (set_deposit_in id (record old { reorged_at = some at }) m)
set_reorged-Gone id at old m found e there =
    let new : DepositRecord = record old { reorged_at = some at } in
    let at_id =
      deposit_by_id-set_deposit id id old new m found (deposit_by_id-id id old m found)
      ∙ rw ((==_iff id id).1 refl) refl in
    sym (ap (λ r. is_set r.reorged_at) (some-injective new e (sym at_id ∙ there)))

-- A mark in a solvent storage.
abbrev pub MarksAs : ℕ → ℕ → Storage → MarkReorgedResult → Storage → Type 0
MarksAs id at s r t =
    (mark_deposit_reorged id at s ≡ (ok r, t))
    × Solvent t
    × Marked s.deposits_by_key t.deposits_by_key
    × Gone id t.deposits_by_key

pub mark-cases :
    (id at : ℕ) (s : Storage)
    → Solvent s
    → (r : MarkReorgedResult) × (t : Storage) × MarksAs id at s r t
unfolding mark_deposit_reorged
mark-cases id at s h = elim (Option-cases (deposit_by_id id s)) [
  | inl missing ↦ (
    MarkReorgedResult.not_done ReorgFailure.not_found,
    s,
    (
      rw (missing, mark_deposit_reorged) refl,
      h,
      unmarked s.deposits_by_key,
      λ e there. absurd (cc (missing, there)),
    ),
  )
  | inr (d, found) ↦
      let m = s.deposits_by_key in
      let marked = set_reorged-Marked id at d m found in
      let gone = set_reorged-Gone id at d m found in
      elim (Bool-cases (is_set d.reorged_at)) [
        | inl before ↦ (
          MarkReorgedResult.not_done ReorgFailure.already_reorged,
          s,
          (
            rw (found, mark_deposit_reorged) (rw before refl),
            h,
            unmarked m,
            λ e there.
                subst (λ x. is_set x.reorged_at ≡ true) (some-injective d e (sym found ∙ there))
                  before,
          ),
        )
        | inr live ↦ elim (Bool-cases (is_set d.credited_at)) [
          | inr fresh ↦
              (_, _, (mark_deposit_reorged-marks s h id d at found live fresh, h, marked, gone))
          | inl was ↦ elim (Option-cases (get d.identity_id s.identities)) [
            | inl unknown ↦ (
              MarkReorgedResult.done false none,
              with_deposit id (record d { reorged_at = some at }) s,
              (
                rw (found, mark_deposit_reorged)
                    (rw live (rw was (rw (unknown, mark_deposit_reorged) refl))),
                h,
                marked,
                gone,
              ),
            )
            | inr (i, known) ↦ (
              _,
              reversed id d i at s,
              (
                mark_deposit_reorged-reverses s h id d at found live i was known,
                Steps-Solvent
                    (one-Step {tidy = true} {s = s} {t = reversed id d i at s}
                      (reverse id d i at found live was known refl))
                    h,
                marked,
                gone,
              ),
            )
          ]
        ]
      ]
]

-- What holds of all the rows of a list that pass a test holds of every row that passes it.
abbrev pub AllRows : (DepositRecord → Type 0) → List DepositRecord → Type 0
AllRows P [] = Unit
AllRows P (d ∷ ds) = P d × AllRows P ds

pub AllRows-found :
    (P : DepositRecord → Type 0) (p : DepositRecord → Bool) (id : ℕ) (d : DepositRecord)
    (m : Dict DepositRecord)
    → AllRows P (filter_deposits p m)
    → deposit_by_id_in id m ≡ some d
    → p d ≡ true
    → P d
unfolding filter_deposits deposit_by_id_in
AllRows-found P p id d [] h found passes = cc
AllRows-found P p id d ((k, x) ∷ m) h found passes = elim (Bool-cases (x.id == id)) [
  | inl same ↦
      let x_is = some-injective x d (rw same at found) in
      let kept : p x ≡ true = subst (λ y. p y ≡ true) (sym x_is) passes in
      subst P x_is (rw kept at h).0
  | inr other ↦
      let later : deposit_by_id_in id m ≡ some d = rw other at found in
      elim (Bool-cases (p x)) [
        | inl kept ↦ AllRows-found P p id d m (rw kept at h).1 later passes
        | inr dropped ↦ AllRows-found P p id d m (rw dropped at h) later passes
      ]
]
