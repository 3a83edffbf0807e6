-- ===== src/Storage/Requests.antt =====
-- The spent requests of `InMemoryStorage`: the two-phase debit, the reaper, the clean-up and the
-- signed balance query (packages/storage/src/memory.ts).
use v.Base.{ℕ, ◌+◌, Bool, true, false, ◌&&◌, ◌||◌, not, Option, none, some, List, [], ◌∷◌, ◌++◌}
use v.Base.{ltb, leb, if◌then◌else◌}
use v.Base.Int.{ℤ, pos, ◌+ℤ◌, ◌-ℤ◌, neg, ltb_ℤ}
use v.Base.Text.{Text, text_eq}
use v.Base.Dict.{Dict, get, keys}
use v.Storage.Types.{
  IdentityRecord, SpentRequestStatus, SpentRequestRecord, LedgerKind, LedgerReason,
  ReservePaymentInput, ReservePaymentResult, ConditionalUpdateResult, LateCommitResult,
  RecordBalanceQueryInput, RecordBalanceQueryResult,
}
use v.Storage.State.{
  Storage, ok, Action, pure, ◌>>=◌, ◌>>◌, set_identity, set_request, append_ledger,
  assert_balance_invariant,
}

unfoldable pub get_identity : Text → Storage → Option IdentityRecord
get_identity id s = get id s.identities

unfoldable pub get_spent_request : Text → Storage → Option SpentRequestRecord
get_spent_request request_id s = get request_id s.spent_requests

-- `row?.status`
abbrev pub status_of : Option SpentRequestRecord → Option SpentRequestStatus
status_of none = none
status_of (some row) = some row.status

abbrev pub new_row : ReservePaymentInput → SpentRequestStatus → SpentRequestRecord
new_row input status = record {
  request_id = input.request_id;
  identity_id = input.identity_id;
  issued_at = input.issued_at;
  received_at = input.received_at;
  amount_sats = input.amount_sats;
  method = input.method;
  path = input.path;
  status = status;
  response_bytes = none;
}

abbrev pub refuse_insufficient : ReservePaymentInput → IdentityRecord → Action ReservePaymentResult
refuse_insufficient input identity = do
  set_request input.request_id (new_row input SpentRequestStatus.insufficient)
  pure (ReservePaymentResult.insufficient identity.balance_sats)

abbrev pub debit_reserve : ReservePaymentInput → IdentityRecord → Action ReservePaymentResult
debit_reserve input identity = do
  let balance_after = identity.balance_sats -ℤ input.amount_sats
  set_identity input.identity_id (record identity { balance_sats = balance_after })
  set_request input.request_id (new_row input SpentRequestStatus.reserved)
  append_ledger input.identity_id LedgerKind.debit LedgerReason.reserve (neg input.amount_sats)
      balance_after input.received_at (some input.request_id) none
  assert_balance_invariant input.identity_id
  pure (ReservePaymentResult.reserved balance_after)

abbrev pub reserve_body : ReservePaymentInput → IdentityRecord → Action ReservePaymentResult
reserve_body input found = do
  let identity = record found { last_request_at = some input.received_at }
  set_identity input.identity_id identity
  if ltb_ℤ identity.balance_sats input.amount_sats
      then refuse_insufficient input identity
      else debit_reserve input identity

abbrev pub reserve_known : ReservePaymentInput → IdentityRecord → Action ReservePaymentResult
reserve_known input found = assert_balance_invariant input.identity_id >> reserve_body input found

abbrev pub refuse_unknown : ReservePaymentInput → Action ReservePaymentResult
refuse_unknown input = do
  set_request input.request_id (new_row input SpentRequestStatus.insufficient)
  pure ReservePaymentResult.unknown_identity

unfoldable pub reserve_payment : ReservePaymentInput → Action ReservePaymentResult
reserve_payment input s = elim (get input.request_id s.spent_requests) [
  | some existing ↦ (ok (ReservePaymentResult.replay existing.status), s)
  | none ↦ elim (get input.identity_id s.identities) [
    | none ↦ refuse_unknown input s
    | some identity ↦ reserve_known input identity s
  ]
]

-- `row.status === "reserved"`
abbrev pub is_reserved : SpentRequestStatus → Bool
is_reserved SpentRequestStatus.reserved = true
is_reserved _ = false

-- `row.status === "error"`
abbrev pub is_error : SpentRequestStatus → Bool
is_error SpentRequestStatus.error = true
is_error _ = false

unfoldable pub commit_payment : Text → ℕ → ℕ → Action ConditionalUpdateResult
commit_payment request_id response_bytes at s = elim (get request_id s.spent_requests) [
  | none ↦ (ok (ConditionalUpdateResult.not_done none), s)
  | some row ↦
      if is_reserved row.status
      then (set_request request_id (record row {
        status = SpentRequestStatus.committed;
        response_bytes = some response_bytes;
      })
            >> pure ConditionalUpdateResult.done)
          s
      else (ok (ConditionalUpdateResult.not_done (some row.status)), s)
]

-- The refund of a reserved row, in `rollbackPayment` and in the reaper: the row and the balance
-- below the first check.
abbrev pub refund_body :
    {A : Type 0} → LedgerReason → ℕ → Text → SpentRequestRecord → IdentityRecord → A → Action A
refund_body reason at request_id row identity result = do
  set_request request_id (record row { status = SpentRequestStatus.error })
  let balance_after = identity.balance_sats +ℤ row.amount_sats
  set_identity row.identity_id (record identity { balance_sats = balance_after })
  append_ledger row.identity_id LedgerKind.refund reason row.amount_sats balance_after at
      (some request_id) none
  assert_balance_invariant row.identity_id
  pure result

abbrev pub refund_row :
    {A : Type 0} → LedgerReason → ℕ → Text → SpentRequestRecord → IdentityRecord → A → Action A
refund_row reason at request_id row identity result =
    assert_balance_invariant row.identity_id >> refund_body reason at request_id row identity result

unfoldable pub rollback_payment : Text → ℕ → Action ConditionalUpdateResult
rollback_payment request_id at s = elim (get request_id s.spent_requests) [
  | none ↦ (ok (ConditionalUpdateResult.not_done none), s)
  | some row ↦
      if is_reserved row.status
      then elim (get row.identity_id s.identities) [
        | none ↦ (ok (ConditionalUpdateResult.not_done (some row.status)), s)
        | some identity ↦
            refund_row LedgerReason.rollback at request_id row identity ConditionalUpdateResult.done
              s
      ]
      else (ok (ConditionalUpdateResult.not_done (some row.status)), s)
]

abbrev pub late_commit_body :
    Text → ℕ → ℕ → SpentRequestRecord → IdentityRecord → Action LateCommitResult
late_commit_body request_id response_bytes at row identity = do
  set_request request_id
      (record row { status = SpentRequestStatus.committed; response_bytes = some response_bytes })
  let balance_after = identity.balance_sats -ℤ row.amount_sats
  set_identity row.identity_id (record identity { balance_sats = balance_after })
  append_ledger row.identity_id LedgerKind.debit LedgerReason.late_commit (neg row.amount_sats)
      balance_after at (some request_id) none
  assert_balance_invariant row.identity_id
  pure (LateCommitResult.done balance_after)

abbrev pub late_commit_row :
    Text → ℕ → ℕ → SpentRequestRecord → IdentityRecord → Action LateCommitResult
late_commit_row request_id response_bytes at row identity =
    assert_balance_invariant row.identity_id
    >> late_commit_body request_id response_bytes at row identity

unfoldable pub late_commit_payment : Text → ℕ → ℕ → Action LateCommitResult
late_commit_payment request_id response_bytes at s = elim (get request_id s.spent_requests) [
  | none ↦ (ok (LateCommitResult.not_done none), s)
  | some row ↦
      if is_error row.status
      then elim (get row.identity_id s.identities) [
        | none ↦ (ok (LateCommitResult.not_done (some row.status)), s)
        | some identity ↦ late_commit_row request_id response_bytes at row identity s
      ]
      else (ok (LateCommitResult.not_done (some row.status)), s)
]

-- One round of the reaper's loop: the ids that it pushes. Every row stands under its own
-- `requestId`, so the key serves as the id in the ledger entry.
unfoldable pub reap_one : ℕ → ℕ → Text → Action (List Text)
reap_one cutoff_received_at at request_id s = elim (get request_id s.spent_requests) [
  | none ↦ (ok [], s)
  | some row ↦
      if not (is_reserved row.status) || leb cutoff_received_at row.received_at
      then (ok [], s)
      else elim (get row.identity_id s.identities) [
        | none ↦ (ok [], s)
        | some identity ↦
            refund_row LedgerReason.reaper_expired at request_id row identity (row.request_id ∷ [])
              s
      ]
]

-- The loop goes through the keys of the map; the rows are read as they are when their turn comes.
unfoldable pub reap_keys : ℕ → ℕ → List Text → Action (List Text)
unfolding reap_one
reap_keys cutoff at [] = pure []
reap_keys cutoff at (k ∷ ks) = do
  here ← reap_one cutoff at k
  later ← reap_keys cutoff at ks
  pure (here ++ later)

unfoldable pub reap_expired_reservations : ℕ → ℕ → Action (List Text)
unfolding reap_keys
reap_expired_reservations cutoff at s = reap_keys cutoff at (keys s.spent_requests) s

-- The loop of `cleanupSpentRequests`: what is kept, and how many rows went.
unfoldable pub cleanup_rows : ℕ → Dict SpentRequestRecord → Dict SpentRequestRecord × ℕ
cleanup_rows cutoff [] = ([], 0)
cleanup_rows cutoff ((k, row) ∷ rows) =
    let (kept, removed) = cleanup_rows cutoff rows in
    if ltb row.issued_at cutoff then (kept, removed + 1) else ((k, row) ∷ kept, removed)

unfoldable pub cleanup_spent_requests : ℕ → Action ℕ
unfolding cleanup_rows
cleanup_spent_requests cutoff_issued_at s =
    let (kept, removed) = cleanup_rows cutoff_issued_at s.spent_requests in
    (ok removed, record s { spent_requests = kept })

unfoldable pub sum_reserved_in : Text → Dict SpentRequestRecord → ℤ
sum_reserved_in identity_id [] = pos 0
sum_reserved_in identity_id ((k, row) ∷ rows) =
    let rest = sum_reserved_in identity_id rows in
    if text_eq row.identity_id identity_id && is_reserved row.status
    then row.amount_sats +ℤ rest
    else rest

unfoldable pub sum_reserved_sats : Text → Storage → ℤ
unfolding sum_reserved_in
sum_reserved_sats identity_id s = sum_reserved_in identity_id s.spent_requests

abbrev pub query_row : RecordBalanceQueryInput → SpentRequestRecord
query_row input = record {
  request_id = input.request_id;
  identity_id = input.identity_id;
  issued_at = input.issued_at;
  received_at = input.received_at;
  amount_sats = pos 0;
  method = input.method;
  path = input.path;
  status = SpentRequestStatus.committed;
  response_bytes = none;
}

unfoldable pub record_balance_query : RecordBalanceQueryInput → Action RecordBalanceQueryResult
record_balance_query input s = elim (get input.request_id s.spent_requests) [
  | some existing ↦ (ok (RecordBalanceQueryResult.replay existing.status), s)
  | none ↦
      (set_request input.request_id (query_row input) >> pure RecordBalanceQueryResult.recorded) s
]
