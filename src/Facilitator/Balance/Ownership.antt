-- ===== src/Facilitator/Balance/Ownership.antt =====
-- What a balance shows (packages/facilitator/src/api/balance.controller.ts).
use v.Base.{ℕ, ◌≡◌, Bool, none}
use v.Base.Int.{◌+ℤ◌}
use v.Base.Text.{Text}
use v.Base.Dict.{Dict, get, set}
use v.Protocol.Headers.{Headers}
use v.Storage.State.{Storage}
use v.Storage.Requests.{query_row, sum_reserved_sats}
use v.Storage.Deposits.{sum_pending_deposit_sats}
use v.Storage.Solvency.{sum_entries}
use v.Storage.Step.Solvent.{Solvent}
use v.Verifier.Types.{RpcAnswer}
use v.Facilitator.Ledger.{LedgerConfig}
use v.Protocol.Amount.{sats_to_human}
use v.Protocol.Canonical.{canonicalize_balance_query}
use v.Facilitator.Ledger.Signed.{IsSigned}
use v.Facilitator.Balance.{
  first_deposit_of, last_request_of, BalanceQuery, BalanceView, Between, sats_text, balance_input,
  balance,
}

-- The storage with the query recorded in it.
abbrev pub noted : BalanceQuery → ℕ → Storage → Storage
noted q now s = record s {
  spent_requests = set q.query_id (query_row (balance_input q now)) s.spent_requests;
}

-- The figures of a view, each as satoshis and in coins: what is free is the sum of the identity's
-- ledger where the account was read.
abbrev pub IsBalance : Text → Storage → Storage → Storage → BalanceView → Type 0
IsBalance key first second third view =
    let free = sum_entries key first.ledger in
    let held = sum_reserved_sats key second in
    let coming = sum_pending_deposit_sats key third in
    (view.identity ≡ key)
    × (view.available_sats ≡ sats_text free)
    × (view.available ≡ sats_to_human free)
    × (view.reserved_sats ≡ sats_text held)
    × (view.reserved ≡ sats_to_human held)
    × (view.balance_sats ≡ sats_text (free +ℤ held))
    × (view.balance ≡ sats_to_human (free +ℤ held))
    × (view.pending_sats ≡ sats_text coming)
    × (view.pending ≡ sats_to_human coming)
    × (view.first_deposit_at ≡ first_deposit_of (get key first.identities))
    × (view.last_request_at ≡ last_request_of (get key first.identities))

-- The storages that an answered query meets, from the one that it is recorded in.
abbrev pub Shows : BalanceQuery → ℕ → Between → Storage → BalanceView → Storage → Type 0
Shows q now between s view t =
    (get q.query_id s.spent_requests ≡ none)
    × ((id : Text) → sum_reserved_sats id (noted q now s) ≡ sum_reserved_sats id s)
    × (let first = between.recorded (noted q now s) in
        let second = between.account_read first in
        (t ≡ between.reserved_read second)
        × IsBalance q.identity_key first second (between.reserved_read second) view)

-- What an accepted query of a balance has passed.
abbrev pub IsBalanceQuery :
    (lower trim : Text → Text)
    → (Text → Text → Text → Bool → RpcAnswer Bool)
    → LedgerConfig
    → Headers
    → (now : ℕ) → BalanceQuery
    → Type 0
IsBalanceQuery lower trim verify_message config headers now q =
    IsSigned canonicalize_balance_query lower trim verify_message config headers now q.identity_key
      q.query_id q.query_issued_at
