-- ===== src/Facilitator/Reconciliation.antt =====
-- The reconciliation of packages/facilitator/src/reconciliation/reconciliation.service.ts: the
-- balance of every identity against its ledger. Parameters: the hash of an identity's name, the
-- JSON text of a run's detail, the clock's readings, and what the node answers for the balance on
-- the chain (already in satoshis, or nothing when the node cannot be reached), and what
-- other calls do to the storage at each await. The counters of the metrics are left out.
pub mod Clean
use v.Base.{
  ℕ, suc, Bool, true, false, not, ◌||◌, Option, none, some, List, [], ◌∷◌, ◌++◌, if◌then◌else◌, map,
}
use v.Base.Int.{ℤ, eqb_ℤ}
use v.Base.Lists.{length}
use v.Base.Text.{Text}
use v.Storage.Types.{IdentityRecord, LedgerSummary, ReconciliationRun}
use v.Storage.State.{Storage}
use v.Storage.Requests.{get_identity}
use v.Storage.Deposits.{sum_credited_deposits}
use v.Storage.Records.{list_identity_ids, get_ledger_summary, record_reconciliation_run}

pub record ReconciliationMismatch : Type 0 where
  pub identity_hash : Text
  pub balance_sats : ℤ
  pub ledger_sum_sats : ℤ
  pub ledger_latest_balance_after_sats : Option ℤ

pub record ReconciliationResult : Type 0 where
  pub run_at : ℕ
  pub identities_checked : ℕ
  pub mismatches : ℕ
  pub detail : List ReconciliationMismatch
  -- The credited and the chain's satoshis, when the node answers.
  pub on_chain : Option (ℤ × ℤ)
  pub duration_ms : ℕ

-- `summary.latestBalanceAfterSats === identity.balanceSats`
abbrev pub latest_is : Option ℤ → ℤ → Bool
latest_is none balance = false
latest_is (some latest) balance = eqb_ℤ latest balance

abbrev pub mismatch : Text → IdentityRecord → LedgerSummary → ReconciliationMismatch
mismatch hashed identity summary = record {
  identity_hash = hashed;
  balance_sats = identity.balance_sats;
  ledger_sum_sats = summary.sum_sats;
  ledger_latest_balance_after_sats = summary.latest_balance_after_sats;
}

-- What other calls do to the storage while the run waits: for the list of the identities, for the
-- account and the summary of the n-th of them, for the node, and for the credited sum.
pub record Awaits : Type 0 where
  pub listed : Storage → Storage
  pub account_read : ℕ → Storage → Storage
  pub summary_read : ℕ → Storage → Storage
  pub node_asked : Storage → Storage
  pub credits_read : Storage → Storage

-- What a round pushes for the account and the summary that it has read.
unfoldable pub differences :
    (Text → Text) → Text → IdentityRecord → LedgerSummary → List ReconciliationMismatch
differences hash id identity summary =
    if not (eqb_ℤ summary.sum_sats identity.balance_sats)
      || not (latest_is summary.latest_balance_after_sats identity.balance_sats)
    then mismatch (hash id) identity summary ∷ []
    else []

-- One round of the loop. The summary is read from the storage that other calls have left since the
-- account was read.
unfoldable pub check_identity :
    (Text → Text)
    → Text
    → (account_read summary_read : Storage → Storage) → Storage
    → List ReconciliationMismatch × Storage
unfolding get_identity get_ledger_summary differences
check_identity hash id account_read summary_read s = elim (get_identity id s) [
  | none ↦ ([], account_read s)
  | some identity ↦ (
    differences hash id identity (get_ledger_summary id (account_read s)),
    summary_read (account_read s),
  )
]

unfoldable pub check_identities :
    (Text → Text)
    → Awaits
    → (round : ℕ) → List Text
    → Storage
    → List ReconciliationMismatch × Storage
unfolding check_identity
check_identities hash awaits round [] s = ([], s)
check_identities hash awaits round (id ∷ ids) s =
    let (found, t) =
      check_identity hash id (awaits.account_read round) (awaits.summary_read round) s in
    let (rest, u) = check_identities hash awaits (suc round) ids t in (found ++ rest, u)

-- The crosscheck with the chain, which counts nothing.
unfoldable pub cross_check : Awaits → Option ℤ → Storage → Option (ℤ × ℤ) × Storage
cross_check awaits none s = (none, awaits.node_asked s)
cross_check awaits (some chain_balance) s =
    let t = awaits.node_asked s in
    (some (sum_credited_deposits true t, chain_balance), awaits.credits_read t)

-- `run`
unfoldable pub reconcile :
    (Text → Text)
    → (List ReconciliationMismatch → Option (ℤ × ℤ) → Text)
    → Awaits
    → Option ℤ
    → (run_at duration_ms : ℕ) → Storage
    → ReconciliationResult × Storage
unfolding check_identities cross_check
reconcile hash encode awaits chain run_at duration_ms s =
    let ids = list_identity_ids s in
    let (detail, t) = check_identities hash awaits 0 ids (awaits.listed s) in
    let (on_chain, u) = cross_check awaits chain t in
    let result : ReconciliationResult = record {
      run_at = run_at;
      identities_checked = length ids;
      mismatches = length detail;
      detail = detail;
      on_chain = on_chain;
      duration_ms = duration_ms;
    } in
    (
      result,
      (record_reconciliation_run
          (record {
            id = 0;
            run_at = run_at;
            identities_checked = length ids;
            mismatches = length detail;
            detail_json = some (encode detail on_chain);
            duration_ms = duration_ms;
          })
          u).1,
    )
