-- ===== src/Facilitator/Reconciliation/Clean.antt =====
-- What a clean reconciliation says, and that every reachable storage is clean.
use v.Base.{
  ℕ, ◌≡◌, ◌↔◌, ◌∙◌, refl, sym, ap, Bool, true, false, inl, inr, Option, none, some, List, [], ◌∷◌,
  ◌++◌, reverse, arith, not, ◌||◌, if◌then◌else◌, Bool-cases, Option-cases, suc,
}
use mathlib.Core.List.{reverse-append}
use v.Base.Int.{ℤ, ◌+ℤ◌, eqb_ℤ, eqb_ℤ_iff, int_laws}
use v.Base.Lists.{length}
use v.Base.Text.{Text, text_eq}
use v.Base.Dict.{get}
use v.Storage.Types.{IdentityRecord, LedgerEntry, LedgerSummary}
use v.Storage.State.{Storage, find_entry}
use v.Storage.Requests.{get_identity}
use v.Storage.Records.{summarize, summarize_from, get_ledger_summary, no_entries, list_identity_ids}
use v.Storage.Solvency.{Agrees, sum_entries}
use v.Storage.Step.Solvent.{Solvent}
use v.Storage.History.{Call}
use v.Storage.History.Invariants.{after, after-Solvent}
use mathlib.Core.Path.{subst}
use mathlib.Core.Option
use v.Facilitator.Reconciliation.{
  Awaits, differences, mismatch, latest_is, check_identity, check_identities, reconcile,
  ReconciliationMismatch,
}

abbrev latest_of : Option LedgerEntry → Option ℤ → Option ℤ
latest_of none o = o
latest_of (some e) o = some e.balance_after_sats

-- The entry that the search from the end finds, when an older entry is put in front.
abbrev or_else : Option LedgerEntry → Option LedgerEntry → Option LedgerEntry
or_else none o = o
or_else (some e) o = some e

find_entry-after :
    (id : Text) (l : List LedgerEntry) (e : LedgerEntry)
    → find_entry id (l ++ e ∷ [])
      ≡ or_else (find_entry id l) (if text_eq e.identity_id id then some e else none)
unfolding find_entry
find_entry-after id [] e = refl
find_entry-after id (x ∷ l) e = elim (Bool-cases (text_eq x.identity_id id)) [
  | inl same ↦ rw same refl
  | inr other ↦ rw other (find_entry-after id l e)
]

summarize-sum :
    (id : Text) (l : List LedgerEntry) (acc : LedgerSummary)
    → (summarize_from id acc l).sum_sats ≡ acc.sum_sats +ℤ sum_entries id l
unfolding summarize_from sum_entries
summarize-sum id [] acc = omega int_laws
summarize-sum id (e ∷ l) acc = elim (Bool-cases (text_eq e.identity_id id)) [
  | inl same ↦ rw (summarize-sum id l (summarize id acc e)) (rw same (omega int_laws))
  | inr other ↦ rw (summarize-sum id l (summarize id acc e)) (rw other refl)
]

summarize-latest :
    (id : Text) (l : List LedgerEntry) (acc : LedgerSummary)
    → (summarize_from id acc l).latest_balance_after_sats
      ≡ latest_of (find_entry id (reverse l)) acc.latest_balance_after_sats
unfolding summarize_from find_entry
summarize-latest id [] acc = refl
summarize-latest id (e ∷ l) acc =
    summarize-latest id l (summarize id acc e)
    ∙ sym (
        ap (λ (o : Option LedgerEntry). latest_of o acc.latest_balance_after_sats)
          (ap (find_entry id) (reverse-append (e ∷ []) l) ∙ find_entry-after id (reverse l) e)
        ∙ settle (find_entry id (reverse l)))
  where
    settle :
        (o : Option LedgerEntry)
        → latest_of
            (or_else o (if text_eq e.identity_id id then some e else none))
            acc.latest_balance_after_sats
          ≡ latest_of o (summarize id acc e).latest_balance_after_sats
    settle (some x) = refl
    settle none = elim (Bool-cases (text_eq e.identity_id id)) [
      | inl same ↦ rw same refl
      | inr other ↦ rw other refl
    ]

-- A figure is the sum of the identity's entries in a ledger, and the balance after the latest of them.
abbrev pub Reconciles : Storage → Text → ℤ → Type 0
Reconciles s id balance =
    (sum_entries id s.ledger ≡ balance)
    × (Option.map (λ (e : LedgerEntry). e.balance_after_sats) (find_entry id (reverse s.ledger))
        ≡ some balance)

Solvent-Reconciles :
    (s : Storage)
    → Solvent s
    → (id : Text) (identity : IdentityRecord) → get id s.identities ≡ some identity
    → Reconciles s id identity.balance_sats
Solvent-Reconciles s h id identity found =
    go (find_entry id (reverse s.ledger)) (rw found at (h id))
  where
    go :
        (o : Option LedgerEntry)
        → Agrees (some identity) o (sum_entries id s.ledger)
        → (sum_entries id s.ledger ≡ identity.balance_sats)
          × (Option.map (λ (e : LedgerEntry). e.balance_after_sats) o ≡ some identity.balance_sats)
    go none bad = absurd bad
    go (some e) (after_e, total) = (total, ap some after_e)

some_inj : {A : Type 0} {a b : A} → some a ≡ some b → a ≡ b
some_inj h = cc

latest_is_iff : (o : Option ℤ) (b : ℤ) → (latest_is o b ≡ true) ↔ (o ≡ some b)
latest_is_iff none b = ground arith
latest_is_iff (some l) b = (λ h. ap some ((eqb_ℤ_iff l b).0 h), λ h. (eqb_ℤ_iff l b).1 (some_inj h))

nothing_iff :
    (b c : Bool) (m : ReconciliationMismatch)
    → ((if not b || not c then m ∷ [] else []) ≡ []) ↔ ((b ≡ true) × (c ≡ true))
nothing_iff true true m = (λ _. (refl, refl), λ _. refl)
nothing_iff true false m = ground arith
nothing_iff false c m = ground arith

differences_iff :
    (hash : Text → Text) (id : Text) (identity : IdentityRecord) (m : LedgerSummary)
    → (differences hash id identity m ≡ []) ↔ (
        (m.sum_sats ≡ identity.balance_sats)
        × (m.latest_balance_after_sats ≡ some identity.balance_sats))
unfolding differences
differences_iff hash id identity m =
    let test =
      nothing_iff (eqb_ℤ m.sum_sats identity.balance_sats)
        (latest_is m.latest_balance_after_sats identity.balance_sats)
        (mismatch (hash id) identity m) in
    let sum_test = eqb_ℤ_iff m.sum_sats identity.balance_sats in
    let latest_test = latest_is_iff m.latest_balance_after_sats identity.balance_sats in
    (
      λ h. (sum_test.0 (test.0 h).0, latest_test.0 (test.0 h).1),
      λ h. test.1 (sum_test.1 h.0, latest_test.1 h.1),
    )

summary-sum :
    (id : Text) (s : Storage) → (get_ledger_summary id s).sum_sats ≡ sum_entries id s.ledger
unfolding get_ledger_summary
summary-sum id s = summarize-sum id s.ledger no_entries ∙ omega int_laws

summary-latest :
    (id : Text) (s : Storage)
    → (get_ledger_summary id s).latest_balance_after_sats
      ≡ Option.map (λ (e : LedgerEntry). e.balance_after_sats) (find_entry id (reverse s.ledger))
unfolding get_ledger_summary
summary-latest id s =
    summarize-latest id s.ledger no_entries ∙ same (find_entry id (reverse s.ledger))
  where
    same :
        (o : Option LedgerEntry)
        → latest_of o none ≡ Option.map (λ (e : LedgerEntry). e.balance_after_sats) o
    same none = refl
    same (some e) = refl

-- The check of one identity whose record is found reports nothing exactly when the balance that it has
-- read is the sum of the identity's entries, and the balance after the latest of them, in the ledger
-- that other calls have left since.
pub check_identity_iff :
    (hash : Text → Text) (account_read summary_read : Storage → Storage) (s : Storage) (id : Text)
    (identity : IdentityRecord)
    → get id s.identities ≡ some identity
    → ((check_identity hash id account_read summary_read s).0 ≡ [])
      ↔ Reconciles (account_read s) id identity.balance_sats
unfolding check_identity get_identity
check_identity_iff hash account_read summary_read s id identity found =
    rw
      (
        found,
        check_identity,
        ← summary-sum id (account_read s),
        ← summary-latest id (account_read s),
      )
      (differences_iff hash id identity (get_ledger_summary id (account_read s)))

abbrev pub balance_at : Text → Storage → Option ℤ
balance_at id s = Option.map (λ (r : IdentityRecord). r.balance_sats) (get id s.identities)

check_identity-clean :
    (hash : Text → Text) (account_read summary_read : Storage → Storage) (s : Storage) (id : Text)
    → Solvent (account_read s)
    → balance_at id (account_read s) ≡ balance_at id s
    → (check_identity hash id account_read summary_read s).0 ≡ []
unfolding check_identity get_identity
check_identity-clean hash account_read summary_read s id solvent same =
    elim (Option-cases (get id s.identities)) [
      | inl missing ↦ rw (missing, check_identity) refl
      | inr (identity, found) ↦ elim (Option-cases (get id (account_read s).identities)) [
        | inl gone ↦ absurd (cc (rw (found, gone) at same))
        | inr (r, there) ↦
            let balance : r.balance_sats ≡ identity.balance_sats =
              some_inj (rw (found, there) at same) in
            (check_identity_iff hash account_read summary_read s id identity found).1 (
              subst (Reconciles (account_read s) id) balance
                (Solvent-Reconciles (account_read s) solvent id r there))
      ]
    ]

-- What other calls do keeps the storage solvent, and moves no balance between the two reads of a round.
pub record IsCalm (awaits : Awaits) : Type 0 where
  pub listed : (s : Storage) → Solvent s → Solvent (awaits.listed s)
  pub account_read : (n : ℕ) (s : Storage) → Solvent s → Solvent (awaits.account_read n s)
  pub summary_read : (n : ℕ) (s : Storage) → Solvent s → Solvent (awaits.summary_read n s)
  pub same_balance :
      (n : ℕ) (s : Storage) (id : Text) → balance_at id (awaits.account_read n s) ≡ balance_at id s

check_identity-Solvent :
    (hash : Text → Text) (account_read summary_read : Storage → Storage) (s : Storage) (id : Text)
    → Solvent (account_read s)
    → Solvent (summary_read (account_read s))
    → Solvent (check_identity hash id account_read summary_read s).1
unfolding check_identity get_identity
check_identity-Solvent hash account_read summary_read s id first second =
    elim (Option-cases (get id s.identities)) [
      | inl missing ↦ rw (missing, check_identity) first
      | inr (identity, found) ↦ rw (found, check_identity) second
    ]

check_identities-clean :
    (hash : Text → Text) (awaits : Awaits)
    → IsCalm awaits
    → (round : ℕ) (ids : List Text) (s : Storage) → Solvent s
    → (check_identities hash awaits round ids s).0 ≡ []
unfolding check_identities
check_identities-clean hash awaits calm round [] s h = refl
check_identities-clean hash awaits calm round (id ∷ ids) s h =
    let first = calm.account_read round s h in
    let t = (check_identity hash id (awaits.account_read round) (awaits.summary_read round) s).1 in
    rw
      (check_identity-clean hash (awaits.account_read round) (awaits.summary_read round) s id first
        (calm.same_balance round s id))
      (check_identities-clean hash awaits calm (suc round) ids t (
        check_identity-Solvent hash (awaits.account_read round) (awaits.summary_read round) s id
          first (calm.summary_read round (awaits.account_read round s) first)))

-- After any sequence of storage calls, a reconciliation counts no mismatch and lists none, whatever the
-- node answers about the chain, where what other calls do meanwhile keeps the storage solvent and moves
-- no balance between the read of an account and the read of its ledger.
pub reconcile-clean :
    (hash : Text → Text) (encode : List ReconciliationMismatch → Option (ℤ × ℤ) → Text)
    (awaits : Awaits) (chain : Option ℤ) (run_at duration_ms : ℕ) (cs : List Call)
    → IsCalm awaits
    → ((reconcile hash encode awaits chain run_at duration_ms (after cs)).0.mismatches ≡ 0)
      × ((reconcile hash encode awaits chain run_at duration_ms (after cs)).0.detail ≡ [])
unfolding reconcile
reconcile-clean hash encode awaits chain run_at duration_ms cs calm =
    let none_found =
      check_identities-clean hash awaits calm 0 (list_identity_ids (after cs))
        (awaits.listed (after cs)) (calm.listed (after cs) (after-Solvent cs)) in
    (ap length none_found, none_found)
