-- ===== src/Verifier/PrepaidSig.antt =====
-- `verify`, `verifyAndReserve`, `commit` and `rollback` of packages/verifier/src/prepaid-sig.ts. A
-- method waits between its calls, and `meanwhile` is what other calls do to the storage there;
-- `now` is the clock's reading.
use v.Base.{ℕ, true, false, Option, none, some}
use v.Base.Int.{pos}
use v.Base.Text.{Text}
use v.Protocol.Types.{valid, invalid, PaymentClaim}
use v.Protocol.Amount.{human_to_sats}
use v.Protocol.Headers.{Parsed, parsed, refused, parse_payment_headers}
use v.Storage.Types.{
  SpentRequestStatus, SpentRequestRecord, ReservePaymentInput, ReservePaymentResult,
  ConditionalUpdateResult, LateCommitResult,
}
use v.Storage.State.{Storage, Result, ok, throw}
use v.Storage.Requests.{
  get_spent_request, reserve_payment, commit_payment, late_commit_payment, rollback_payment,
}
use v.Verifier.Types.{
  IncomingPaymentRequest, RoutePolicy, VerifyErrorCode, no_details, previous_status, balance,
  deposit_address, Reply, accepted, failed, protocol_thrown, storage_thrown, fail, Verified,
  Reserved, Committed, RolledBack, CheckedClaim, PrepaidSigVerifierConfig, Environment,
}
use v.Verifier.Checks.{run_checks, ◌>>=◌}

-- `humanToSats(policy.priceHuman)`, which may throw.
abbrev pub price_sats : RoutePolicy → Reply ℕ
price_sats policy = elim (human_to_sats policy.price_human) [
  | valid sats ↦ accepted sats
  | invalid code ↦ protocol_thrown code
]

abbrev pub verified_of : CheckedClaim → ℕ → Verified
verified_of checked sats = record {
  request_id = checked.claim.request_id;
  payer = checked.identity_key;
  amount_sats = sats;
}

abbrev pub reserve_input : IncomingPaymentRequest → CheckedClaim → ℕ → ReservePaymentInput
reserve_input request checked sats = record {
  request_id = checked.claim.request_id;
  identity_id = checked.identity_key;
  issued_at = checked.claim.issued_at;
  received_at = checked.received_at;
  amount_sats = pos sats;
  method = request.method;
  path = request.path;
}

-- The `switch` on the reservation's status.
abbrev pub reserve_reply :
    PrepaidSigVerifierConfig → CheckedClaim → ℕ → Result ReservePaymentResult → Reply Reserved
reserve_reply config checked sats (throw t) = storage_thrown t
reserve_reply config checked sats (ok (ReservePaymentResult.reserved balance_after)) =
    accepted (record { verified = verified_of checked sats; balance_after_sats = balance_after })
reserve_reply config checked sats (ok (ReservePaymentResult.replay status)) =
    fail 409 VerifyErrorCode.replay (previous_status status)
reserve_reply config checked sats (ok (ReservePaymentResult.insufficient balance_sats)) =
    fail 402 VerifyErrorCode.insufficient_balance (balance balance_sats sats config.pay_to)
reserve_reply config checked sats (ok ReservePaymentResult.unknown_identity) =
    fail 402 VerifyErrorCode.no_balance (deposit_address config.pay_to)

-- From the checked claim to the result: the price is read, then the storage reserves it.
unfoldable pub reserve_checked :
    PrepaidSigVerifierConfig
    → IncomingPaymentRequest
    → RoutePolicy
    → CheckedClaim
    → Storage
    → Reply Reserved × Storage
unfolding human_to_sats
reserve_checked config request policy checked s = elim (human_to_sats policy.price_human) [
  | invalid code ↦ (protocol_thrown code, s)
  | valid sats ↦
      let (result, t) = reserve_payment (reserve_input request checked sats) s in
      (reserve_reply config checked sats result, t)
]

-- What a failed check, or a thrown error, passes on.
abbrev pub reserve_if_checked :
    PrepaidSigVerifierConfig
    → IncomingPaymentRequest
    → RoutePolicy
    → Reply CheckedClaim
    → (Storage → Storage)
    → Storage
    → Reply Reserved × Storage
reserve_if_checked config request policy (accepted checked) meanwhile s =
    reserve_checked config request policy checked (meanwhile s)
reserve_if_checked config request policy (failed e) meanwhile s = (failed e, s)
reserve_if_checked config request policy (protocol_thrown code) meanwhile s =
    (protocol_thrown code, s)
reserve_if_checked config request policy (storage_thrown t) meanwhile s = (storage_thrown t, s)

-- The row under the claim's id, when the headers are read.
abbrev pub existing_row : Parsed PaymentClaim → Storage → Option SpentRequestRecord
existing_row (refused _) s = none
existing_row (parsed claim) s = get_spent_request claim.request_id s

module _ {State : Type 0} (env : Environment State) (config : PrepaidSigVerifierConfig) where
  unfoldable pub verify :
      IncomingPaymentRequest → RoutePolicy → (now : ℕ) → Storage → Reply Verified
  unfolding run_checks human_to_sats
  verify request policy now s = do
    checked ← run_checks env config request policy now s
    sats ← price_sats policy
    accepted (verified_of checked sats)

  -- `meanwhile` runs between the checks and the reservation, `before` ahead of the checks.
  unfoldable pub verify_and_reserve :
      IncomingPaymentRequest
      → RoutePolicy
      → (now : ℕ) → (before meanwhile : Storage → Storage) → Storage
      → Reply Reserved × Storage
  unfolding run_checks reserve_checked parse_payment_headers
  verify_and_reserve request policy now before meanwhile s =
      elim (existing_row (parse_payment_headers env.lower request.headers) s) [
        | some existing ↦ (fail 409 VerifyErrorCode.replay (previous_status existing.status), s)
        | none ↦
            reserve_if_checked config request policy
              (run_checks env config request policy now (before s)) meanwhile (before s)
      ]

abbrev pub late_reply : Result LateCommitResult → Reply Committed
late_reply (throw t) = storage_thrown t
late_reply (ok (LateCommitResult.done balance_after)) =
    accepted
      (record { already_committed = false; late = true; balance_after_sats = some balance_after })
late_reply (ok (LateCommitResult.not_done _)) = fail 409 VerifyErrorCode.invalid_state no_details

-- What `commit` does with the answer of `commitPayment`.
abbrev pub after_commit :
    Text
    → ℕ
    → ℕ
    → (Storage → Storage)
    → Result ConditionalUpdateResult
    → Storage
    → Reply Committed × Storage
after_commit request_id response_bytes now meanwhile (throw t) s = (storage_thrown t, s)
after_commit request_id response_bytes now meanwhile (ok ConditionalUpdateResult.done) s =
    (accepted (record { already_committed = false; late = false; balance_after_sats = none }), s)
after_commit request_id response_bytes now meanwhile (ok (ConditionalUpdateResult.not_done none))
      s =
    (fail 404 VerifyErrorCode.unknown_request no_details, s)
after_commit request_id response_bytes now meanwhile
      (ok (ConditionalUpdateResult.not_done (some SpentRequestStatus.committed))) s =
    (accepted (record { already_committed = true; late = false; balance_after_sats = none }), s)
after_commit request_id response_bytes now meanwhile
      (ok (ConditionalUpdateResult.not_done (some SpentRequestStatus.error))) s =
    let (result, t) = late_commit_payment request_id response_bytes now (meanwhile s) in
    (late_reply result, t)
after_commit request_id response_bytes now meanwhile
      (ok (ConditionalUpdateResult.not_done (some _))) s =
    (fail 409 VerifyErrorCode.invalid_state no_details, s)

unfoldable pub commit :
    (request_id : Text) (response_bytes now : ℕ)
    → (meanwhile : Storage → Storage) → Storage
    → Reply Committed × Storage
commit request_id response_bytes now meanwhile s =
    let (result, t) = commit_payment request_id response_bytes now s in
    after_commit request_id response_bytes now meanwhile result t

abbrev pub rollback_reply : Result ConditionalUpdateResult → Reply RolledBack
rollback_reply (throw t) = storage_thrown t
rollback_reply (ok ConditionalUpdateResult.done) = accepted (record { already_rolled_back = false })
rollback_reply (ok (ConditionalUpdateResult.not_done none)) =
    fail 404 VerifyErrorCode.unknown_request no_details
rollback_reply (ok (ConditionalUpdateResult.not_done (some SpentRequestStatus.error))) =
    accepted (record { already_rolled_back = true })
rollback_reply (ok (ConditionalUpdateResult.not_done (some _))) =
    fail 409 VerifyErrorCode.invalid_state no_details

unfoldable pub rollback : (request_id : Text) (now : ℕ) → Storage → Reply RolledBack × Storage
rollback request_id now s =
    let (result, t) = rollback_payment request_id now s in (rollback_reply result, t)
