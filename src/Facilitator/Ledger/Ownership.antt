-- ===== src/Facilitator/Ledger/Ownership.antt =====
-- What a statement shows (packages/facilitator/src/api/ledger.controller.ts).
use v.Base.{
  ℕ, zero, suc, ◌≤◌, ◌<◌, ◌≡◌, refl, Bool, true, false, Option, none, List, [], ◌∷◌, inl, inr,
  arith, ltb, ltb→lt, ◌&&◌, Bool-cases, Option-cases, ap, sym,
}
use mathlib.Core.Path.{subst}
use v.Base.Int.{ℤ}
use v.Base.Text.{Text, text_eq, text_eq_iff}
use v.Base.Lists.{length, take}
use v.Base.Dict.{get, set}
use v.Protocol.Headers.{Headers}
use v.Storage.Types.{LedgerEntry}
use v.Storage.State.{Storage}
use v.Storage.Requests.{record_balance_query, query_row}
use v.Storage.Records.{filter_entries, list_ledger_entries}
use v.Verifier.Types.{RpcAnswer}
use mathlib.Core.List.{Mem, mem-cons_self, mem-cons_of_mem}
use v.Protocol.Amount.{sats_to_human}
use v.Facilitator.Ledger.Signed.{answer_inj, IsLedgerQuery, check_query_request-IsLedgerQuery}
use v.Facilitator.Ledger.{
  Answer, answer, rejected, protocol_error, storage_error, StatementEntry, Statement, entry_views,
  or_zero, LedgerQuery, LedgerConfig, statement_of, query_input, recorded_statement, read_statement,
  check_query_request, ledger,
}

-- Every entry is one of the ledger's, the identity's, and newer than the given one.
abbrev pub AllOwn : Text → ℕ → List LedgerEntry → List LedgerEntry → Type 0
AllOwn id after ledger [] = Unit
AllOwn id after ledger (e ∷ es) =
    Mem e ledger × (e.identity_id ≡ id) × (after < e.id) × AllOwn id after ledger es

-- The same of what a page shows of them, with its amounts as text.
abbrev pub AllShown : Text → ℕ → List LedgerEntry → List StatementEntry → Type 0
AllShown id after ledger [] = Unit
AllShown id after ledger (v ∷ vs) =
    Mem v.entry ledger
    × (v.entry.identity_id ≡ id)
    × (after < v.entry.id)
    × (v.amount ≡ sats_to_human v.entry.amount_sats)
    × (v.balance_after ≡ sats_to_human v.entry.balance_after_sats)
    × AllShown id after ledger vs

and_inv : (a b : Bool) → (a && b) ≡ true → (a ≡ true) × (b ≡ true)
and_inv true b e = (refl, e)
and_inv false b e = absurd (cc e)

AllOwn-grow :
    (id : Text) (after : ℕ) (x : LedgerEntry) (ledger l : List LedgerEntry)
    → AllOwn id after ledger l
    → AllOwn id after (x ∷ ledger) l
AllOwn-grow id after x ledger [] h = tt
AllOwn-grow id after x ledger (e ∷ es) (there, same, newer, rest) =
    (mem-cons_of_mem x there, same, newer, AllOwn-grow id after x ledger es rest)

filter-AllOwn :
    (id : Text) (after : ℕ) (l : List LedgerEntry) → AllOwn id after l (filter_entries id after l)
unfolding filter_entries
filter-AllOwn id after [] = tt
filter-AllOwn id after (e ∷ es) =
    let rest = AllOwn-grow id after e es (filter_entries id after es) (filter-AllOwn id after es) in
    elim (Bool-cases (text_eq e.identity_id id && ltb after e.id)) [
      | inl mine ↦
          let (same, newer) = and_inv (text_eq e.identity_id id) (ltb after e.id) mine in
          rw mine
            (mem-cons_self, (text_eq_iff e.identity_id id).0 same, ltb→lt after e.id newer, rest)
      | inr other ↦ rw other rest
    ]

take-AllOwn :
    (id : Text) (after n : ℕ) (ledger l : List LedgerEntry)
    → AllOwn id after ledger l
    → AllOwn id after ledger (take n l)
take-AllOwn id after zero ledger l h = tt
take-AllOwn id after (suc n) ledger [] h = tt
take-AllOwn id after (suc n) ledger (e ∷ es) (there, same, newer, rest) =
    (there, same, newer, take-AllOwn id after n ledger es rest)

length-take : {A : Type 0} (n : ℕ) (l : List A) → length (take n l) ≤ n
length-take zero l = omega arith
length-take (suc n) [] = omega arith
length-take (suc n) (x ∷ l) = omega (arith, length-take n l)

length-views : (l : List LedgerEntry) → length (entry_views l) ≡ length l
unfolding entry_views
length-views [] = refl
length-views (e ∷ es) = ap suc (length-views es)

views-AllShown :
    (id : Text) (after : ℕ) (ledger l : List LedgerEntry)
    → AllOwn id after ledger l
    → AllShown id after ledger (entry_views l)
unfolding entry_views
views-AllShown id after ledger [] h = tt
views-AllShown id after ledger (e ∷ es) (there, same, newer, rest) =
    (there, same, newer, refl, refl, views-AllShown id after ledger es rest)

-- A page of the identity's own entries, no more of them than asked for.
abbrev pub IsOwn : LedgerQuery → List LedgerEntry → Statement → Type 0
IsOwn q ledger page =
    (page.identity ≡ q.identity_key)
    × (page.count ≡ length page.entries)
    × (length page.entries ≤ q.limit)
    × AllShown q.identity_key (or_zero q.after_id) ledger page.entries

-- The storage with the query recorded in it.
abbrev pub noted : LedgerQuery → ℕ → Storage → Storage
noted q now s = record s {
  spent_requests = set q.query_id (query_row (query_input q now)) s.spent_requests;
}

-- What an answered query has been: recorded under an unused id, which changes nothing else, and
-- answered with a page of the ledger that other calls have left.
abbrev pub Shows :
    LedgerQuery → ℕ → (recorded : Storage → Storage) → Storage → Statement → Storage → Type 0
Shows q now recorded s page t =
    (get q.query_id s.spent_requests ≡ none)
    × (t ≡ recorded (noted q now s))
    × IsOwn q t.ledger page

statement-IsOwn : (q : LedgerQuery) (s : Storage) → IsOwn q s.ledger (statement_of q s)
unfolding statement_of list_ledger_entries
statement-IsOwn q s =
    let after = or_zero q.after_id in
    let mine = filter_entries q.identity_key after s.ledger in
    (
      refl,
      sym (length-views (take q.limit mine)),
      subst (λ n. n ≤ q.limit) (sym (length-views (take q.limit mine))) (length-take q.limit mine),
      views-AllShown q.identity_key after s.ledger (take q.limit mine) (
          take-AllOwn q.identity_key after q.limit s.ledger mine
            (filter-AllOwn q.identity_key after s.ledger)),
    )

recorded-Shows :
    (q : LedgerQuery) (now : ℕ) (recorded : Storage → Storage) (s : Storage) (page : Statement)
    → (recorded_statement q recorded (record_balance_query (query_input q now) s)).0 ≡ answer page
    → Shows q now recorded s page
        (recorded_statement q recorded (record_balance_query (query_input q now) s)).1
unfolding record_balance_query
recorded-Shows q now recorded s page e = elim (Option-cases (get q.query_id s.spent_requests)) [
  | inr (row, found) ↦ absurd (cc (rw (found, record_balance_query) at e))
  | inl fresh ↦
      let t = recorded (noted q now s) in
      let shown : statement_of q t ≡ page = answer_inj (rw (fresh, record_balance_query) at e) in
      rw (fresh, record_balance_query)
        (refl, refl, subst (IsOwn q t.ledger) shown (statement-IsOwn q t))
]

read-Shows :
    (now : ℕ) (checked : Answer LedgerQuery) (meanwhile recorded : Storage → Storage) (s : Storage)
    (page : Statement)
    → (read_statement now checked meanwhile recorded s).0 ≡ answer page
    → (q : LedgerQuery) × (checked ≡ answer q)
      × Shows q now recorded (meanwhile s) page (read_statement now checked meanwhile recorded s).1
read-Shows now (answer q) meanwhile recorded s page e =
    (q, refl, recorded-Shows q now recorded (meanwhile s) page e)
read-Shows now (rejected n code) meanwhile recorded s page e = absurd (cc e)
read-Shows now (protocol_error code) meanwhile recorded s page e = absurd (cc e)
read-Shows now (storage_error t) meanwhile recorded s page e = absurd (cc e)

-- An answered statement is for a query whose headers name an identity, an id and a time within the
-- tolerance, with a signature that the node accepts of the ledger's canonical text, and whose page
-- parameters are in range. The id was unused when the query was recorded, which changes nothing else.
-- The page shows the ledger that the storage then has: no more entries than asked for, all of them the
-- querying identity's own and newer than the given one, with their amounts.
pub ledger-Shows :
    (lower trim : Text → Text) (number : Text → Option ℤ)
    (verify_message : Text → Text → Text → Bool → RpcAnswer Bool) (config : LedgerConfig)
    (headers : Headers) (after_id limit : Option Text) (now : ℕ)
    (meanwhile recorded : Storage → Storage) (s : Storage) (page : Statement)
    → (ledger lower trim number verify_message config headers after_id limit now meanwhile recorded
        s).0
      ≡ answer page
    → (q : LedgerQuery) × IsLedgerQuery lower trim number verify_message config headers now after_id
        limit q
      × Shows q now recorded
          (meanwhile s)
          page
          (ledger lower trim number verify_message config headers after_id limit now meanwhile
            recorded s).1
unfolding ledger
ledger-Shows lower trim number verify_message config headers after_id limit now meanwhile recorded s
      page e =
    let (q, checked, shows) =
      read-Shows now
        (check_query_request lower trim number verify_message config headers after_id limit now)
        meanwhile recorded s page e in
    (
      q,
      check_query_request-IsLedgerQuery lower trim number verify_message config headers now after_id
          limit q checked,
      shows,
    )
