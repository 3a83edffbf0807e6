-- ===== src/Storage/Solvency.antt =====
-- The ledger is the source of truth for every balance (packages/storage/src/memory.ts): the
-- invariant that `assertBalanceInvariant` and the reconciliation check, and how a balance
-- movement keeps it.
pub mod Moves
use v.Base.{
  ◌≡◌, refl, ap, sym, true, Option, none, some, List, [], ◌∷◌, ◌++◌, reverse, inl, inr,
  if◌then◌else◌, Bool-cases, Option-cases,
}
use mathlib.Core.List.{reverse-append}
use v.Base.Int.{ℤ, pos, ◌+ℤ◌, eqb_ℤ, int_laws, eqb_ℤ_iff}
use v.Base.Text.{Text, text_eq, text_eq_iff}
use v.Base.Dict.{Dict, get, set, get-set}
use v.Storage.Types.{IdentityRecord, LedgerEntry}
use v.Storage.State.{Storage, ok, Action, ◌>>=◌, ◌>>◌, find_entry, assert_balance_invariant}

-- The amounts of the identity's entries, added up.
unfoldable pub sum_entries : Text → List LedgerEntry → ℤ
sum_entries id [] = pos 0
sum_entries id (e ∷ es) =
    let rest = sum_entries id es in if text_eq e.identity_id id then e.amount_sats +ℤ rest else rest

-- What the balance, the latest entry and the sum of the entries say of one identity.
abbrev pub Agrees : Option IdentityRecord → Option LedgerEntry → ℤ → Type 0
Agrees none none total = total ≡ pos 0
Agrees (some r) (some e) total = (e.balance_after_sats ≡ r.balance_sats) × (total ≡ r.balance_sats)
Agrees (some _) none total = ⊥
Agrees none (some _) total = ⊥

abbrev pub IsSolvent : Dict IdentityRecord → List LedgerEntry → Type 0
IsSolvent ids l = (id : Text) → Agrees (get id ids) (find_entry id (reverse l)) (sum_entries id l)

abbrev pub balance_of : Option IdentityRecord → ℤ
balance_of none = pos 0
balance_of (some r) = r.balance_sats

find_entry-append :
    (id : Text) (l : List LedgerEntry) (e : LedgerEntry)
    → find_entry id (reverse (l ++ e ∷ []))
      ≡ (if text_eq e.identity_id id then some e else find_entry id (reverse l))
unfolding find_entry
find_entry-append id l e = rw (reverse-append l (e ∷ [])) refl

sum_entries-append :
    (id : Text) (l : List LedgerEntry) (e : LedgerEntry)
    → sum_entries id (l ++ e ∷ [])
      ≡ (if text_eq e.identity_id id then sum_entries id l +ℤ e.amount_sats else sum_entries id l)
unfolding sum_entries
sum_entries-append id [] e = grind int_laws
sum_entries-append id (x ∷ l) e = grind (int_laws, sum_entries-append id l e)

pub Agrees-total :
    (o : Option IdentityRecord) (m : Option LedgerEntry) (t : ℤ) → Agrees o m t → t ≡ balance_of o
Agrees-total none none t h = h
Agrees-total (some r) (some e) t h = h.1
Agrees-total (some r) none t h = absurd h
Agrees-total none (some e) t h = absurd h

Agrees-touch :
    (old r : IdentityRecord) (m : Option LedgerEntry) (t : ℤ)
    → r.balance_sats ≡ old.balance_sats
    → Agrees (some old) m t
    → Agrees (some r) m t
Agrees-touch old r none t same h = absurd h
Agrees-touch old r (some e) t same h = rw same h

Agrees-latest :
    (r : IdentityRecord) (e : LedgerEntry) (t : ℤ)
    → Agrees (some r) (some e) t
    → eqb_ℤ e.balance_after_sats r.balance_sats ≡ true
Agrees-latest r e t h = (eqb_ℤ_iff _ _).1 h.0

module _ (ids : Dict IdentityRecord) (l : List LedgerEntry) (id : Text)
    (solvent : IsSolvent ids l) where
  -- A movement: the new balance, and one entry with the amount and the balance after it.
  pub post-IsSolvent :
      (r : IdentityRecord) (e : LedgerEntry)
      → e.identity_id ≡ id
      → e.balance_after_sats ≡ r.balance_sats
      → r.balance_sats ≡ balance_of (get id ids) +ℤ e.amount_sats
      → IsSolvent (set id r ids) (l ++ e ∷ [])
  post-IsSolvent r e same after moved j =
      rw (get-set j id r ids, find_entry-append j l e, sum_entries-append j l e, same)
        (elim (Bool-cases (text_eq id j)) [
          | inl here ↦ rw here (
            after,
            rw (← (text_eq_iff id j).0 here) (rw (Agrees-total _ _ _ (solvent id)) (sym moved)),
          )
          | inr other ↦ rw other (solvent j)
        ])

  -- A change of the record that leaves the balance alone.
  pub touch-IsSolvent :
      (old r : IdentityRecord)
      → get id ids ≡ some old
      → r.balance_sats ≡ old.balance_sats
      → IsSolvent (set id r ids) l
  touch-IsSolvent old r found same j = rw (get-set j id r ids) (elim (Bool-cases (text_eq id j)) [
    | inl here ↦
        rw here (
          Agrees-touch old r _ _ same (rw (← (text_eq_iff id j).0 here) (rw found at (solvent id))))
    | inr other ↦ rw other (solvent j)
  ])

-- The check passes where the invariant holds.
pub assert-ok :
    (id : Text) (s : Storage)
    → IsSolvent s.identities s.ledger
    → assert_balance_invariant id s ≡ (ok tt, s)
unfolding assert_balance_invariant
assert-ok id s h = elim (Option-cases (get id s.identities)) [
  | inl missing ↦ rw (missing, assert_balance_invariant)
  | inr (r, found) ↦ elim (Option-cases (find_entry id (reverse s.ledger))) [
    | inl missing ↦ rw (found, missing, assert_balance_invariant)
    | inr (e, latest) ↦ rw (
      found,
      latest,
      assert_balance_invariant,
      Agrees-latest r e _ (rw (found, latest) at (h id)),
    )
  ]
]

pub assert-then :
    {A : Type 0} (id : Text) (k : Action A) (s : Storage)
    → IsSolvent s.identities s.ledger
    → (assert_balance_invariant id >> k) s ≡ k s
assert-then id k s h = rw (assert-ok id s h, ◌>>=◌) (ap k (ap (λ p. p.1) (assert-ok id s h)))
