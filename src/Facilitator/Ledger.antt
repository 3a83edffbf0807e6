-- ===== src/Facilitator/Ledger.antt =====
-- The signed statement: packages/facilitator/src/api/ledger.controller.ts. Parameters: lower-casing and
-- trimming, `Number` of a query parameter where it is a safe integer, the node's check of a signature,
-- and what other calls do to the storage while the node answers (`meanwhile`) and before the entries
-- are read (`recorded`).
pub mod Signed
pub mod Ownership
use v.Base.{
  ℕ, ◌+◌, ◌-◌, Bool, true, false, not, Option, none, some, List, [], ◌∷◌, if◌then◌else◌, ◌==◌, ltb,
  leb, ◌&&◌,
}
use v.Base.Int.{ℤ, pos, negsuc}
use v.Base.Text.{Text, codes}
use v.Base.Dict.{get}
use v.Base.Lists.{length}
use v.Base.Decimal.{read_digits}
use v.Protocol.Types.{V402ProtocolErrorCode, Checked, valid, invalid, BalanceQueryPayload}
use v.Protocol.Amount.{is_plain_integer, is_base64_signature, sats_to_human}
use v.Protocol.Canonical.{is_valid_ulid, canonicalize_ledger_query}
use v.Protocol.Headers.{Headers, HeaderValue, one, many, is_identity, normalize_identity_key}
use v.Storage.Types.{
  LedgerEntry, LedgerKind, LedgerReason, RecordBalanceQueryInput, RecordBalanceQueryResult,
  SpentRequestStatus, Thrown,
}
use v.Storage.State.{Storage, Result, ok, throw}
use v.Storage.Requests.{record_balance_query}
use v.Storage.Records.{list_ledger_entries}
use v.Verifier.Types.{RpcAnswer, answered, unavailable, app_error}
use v.Verifier.Checks.{is_out_of_window}

pub data LedgerErrorCode : Type 0 where
  invalid_headers invalid_query timestamp_out_of_window verify_unavailable invalid_signature :
      LedgerErrorCode
  replay : (previous_status : SpentRequestStatus) → LedgerErrorCode

-- `reject` throws an HTTP exception; what else is thrown is passed on.
pub data Answer (A : Type 0) : Type 0 where
  answer : A → Answer A
  rejected : (http_status : ℕ) → LedgerErrorCode → Answer A
  protocol_error : V402ProtocolErrorCode → Answer A
  storage_error : Thrown → Answer A

infixl 5 ◌>>=◌ ◌>>◌
abbrev pub ◌>>=◌ : {A B : Type 0} → Answer A → (A → Answer B) → Answer B
◌>>=◌ (answer a) f = f a
◌>>=◌ (rejected n code) f = rejected n code
◌>>=◌ (protocol_error code) f = protocol_error code
◌>>=◌ (storage_error t) f = storage_error t

abbrev pub ◌>>◌ : {A B : Type 0} → Answer A → Answer B → Answer B
m >> k = m >>= λ _. k

abbrev pub insist : Bool → ℕ → LedgerErrorCode → Answer (Unit {0})
insist true n code = answer tt
insist false n code = rejected n code

abbrev pub single_or_reject : Option (Option HeaderValue) → Answer Text
single_or_reject (some (some (one value))) = answer value
single_or_reject _ = rejected 400 invalid_headers

-- The pages' parameters: `afterId` as given, and `limit`, 50 where it is not given.
abbrev pub after_id_of : (Text → Option ℤ) → Option Text → Answer (Option ℕ)
after_id_of number none = answer none
after_id_of number (some raw) = elim (number raw) [
  | some (pos n) ↦ answer (some n)
  | some (negsuc _) ↦ rejected 400 invalid_query
  | none ↦ rejected 400 invalid_query
]

abbrev pub max_page : ℕ
max_page = 100

abbrev pub limit_in_range : ℕ → Answer ℕ
limit_in_range n = insist (leb 1 n && leb n max_page) 400 invalid_query >> answer n

abbrev pub limit_of : (Text → Option ℤ) → Option Text → Answer ℕ
limit_of number none = limit_in_range 50
limit_of number (some raw) = elim (number raw) [
  | some (pos n) ↦ limit_in_range n
  | some (negsuc _) ↦ rejected 400 invalid_query
  | none ↦ rejected 400 invalid_query
]

abbrev pub text_or_throw : Checked Text → Answer Text
text_or_throw (valid text) = answer text
text_or_throw (invalid code) = protocol_error code

abbrev pub signature_or_reject : RpcAnswer Bool → Answer (Unit {0})
signature_or_reject (answered true) = answer tt
signature_or_reject (answered false) = rejected 402 invalid_signature
signature_or_reject app_error = rejected 402 invalid_signature
signature_or_reject unavailable = rejected 503 verify_unavailable

pub record StatementEntry : Type 0 where
  pub entry : LedgerEntry
  pub amount : Text
  pub balance_after : Text

pub record Statement : Type 0 where
  pub identity : Text
  pub entries : List StatementEntry
  pub count : ℕ
  pub next_after_id : Option ℕ

abbrev pub entry_view : LedgerEntry → StatementEntry
entry_view e = record {
  entry = e;
  amount = sats_to_human e.amount_sats;
  balance_after = sats_to_human e.balance_after_sats;
}

unfoldable pub entry_views : List LedgerEntry → List StatementEntry
unfolding sats_to_human
entry_views [] = []
entry_views (e ∷ es) = entry_view e ∷ entry_views es

unfoldable pub last_id : List LedgerEntry → Option ℕ
last_id [] = none
last_id (e ∷ []) = some e.id
last_id (e ∷ f ∷ es) = last_id (f ∷ es)

abbrev pub or_zero : Option ℕ → ℕ
or_zero none = 0
or_zero (some n) = n

-- What the checks leave for the storage.
pub record LedgerQuery : Type 0 where
  pub identity_key : Text
  pub query_id : Text
  pub query_issued_at : ℕ
  pub after_id : Option ℕ
  pub limit : ℕ

pub record LedgerConfig : Type 0 where
  pub canonical_domain : Text
  pub chain : Text
  pub tolerance : ℕ

unfoldable pub statement_of : LedgerQuery → Storage → Statement
unfolding list_ledger_entries entry_views last_id
statement_of q s =
    let entries = list_ledger_entries q.identity_key (or_zero q.after_id) (some q.limit) s in
    record {
      identity = q.identity_key;
      entries = entry_views entries;
      count = length entries;
      next_after_id = if length entries == q.limit then last_id entries else none;
    }

abbrev pub query_input : LedgerQuery → ℕ → RecordBalanceQueryInput
query_input q now = record {
  request_id = q.query_id;
  identity_id = q.identity_key;
  issued_at = q.query_issued_at;
  received_at = now;
  method = codes "GET";
  path = codes "/v1/ledger";
}

-- Other calls run between the record of the query and the read of the entries.
abbrev pub recorded_statement :
    LedgerQuery
    → (Storage → Storage)
    → Result RecordBalanceQueryResult × Storage
    → Answer Statement × Storage
recorded_statement q recorded (ok RecordBalanceQueryResult.recorded, s) =
    (answer (statement_of q (recorded s)), recorded s)
recorded_statement q recorded (ok (RecordBalanceQueryResult.replay status), s) =
    (rejected 409 (replay status), s)
recorded_statement q recorded (throw t, s) = (storage_error t, s)

abbrev pub read_statement :
    ℕ
    → Answer LedgerQuery
    → (meanwhile recorded : Storage → Storage) → Storage
    → Answer Statement × Storage
read_statement now (answer q) meanwhile recorded s =
    recorded_statement q recorded (record_balance_query (query_input q now) (meanwhile s))
read_statement now (rejected n code) meanwhile recorded s = (rejected n code, s)
read_statement now (protocol_error code) meanwhile recorded s = (protocol_error code, s)
read_statement now (storage_error t) meanwhile recorded s = (storage_error t, s)

-- The headers of a signed query, once each of them is there and has its form.
pub record QueryHeaders : Type 0 where
  pub payer : Text
  pub request_id : Text
  pub issued_at_raw : Text
  pub signature : Text

unfoldable pub read_query_headers : Headers → Answer QueryHeaders
unfolding get is_identity is_valid_ulid is_base64_signature
read_query_headers headers = do
  payer ← single_or_reject (get (codes "x-v402-payer") headers)
  request_id ← single_or_reject (get (codes "x-v402-request-id") headers)
  issued_at_raw ← single_or_reject (get (codes "x-v402-issued-at") headers)
  signature ← single_or_reject (get (codes "x-v402-signature") headers)
  insist (is_identity payer) 400 invalid_headers
  insist (is_valid_ulid request_id) 400 invalid_headers
  insist (is_plain_integer issued_at_raw) 400 invalid_headers
  insist (is_base64_signature signature) 400 invalid_headers
  answer (record {
    payer = payer;
    request_id = request_id;
    issued_at_raw = issued_at_raw;
    signature = signature;
  })

abbrev pub query_payload : LedgerConfig → QueryHeaders → BalanceQueryPayload
query_payload config h = record {
  canonical_domain = config.canonical_domain;
  network = config.chain;
  payer = h.payer;
  request_id = h.request_id;
  issued_at = read_digits 0 h.issued_at_raw;
}

module _ (verify_message : Text → Text → Text → Bool → RpcAnswer Bool) (config : LedgerConfig) where
  -- The time and the signature, of the text that the given function builds.
  unfoldable pub verify_query :
      (BalanceQueryPayload → Checked Text) → QueryHeaders → (now : ℕ) → Answer (Unit {0})
  unfolding read_digits
  verify_query canonicalize h now = do
    let issued_at = read_digits 0 h.issued_at_raw
    insist (not (is_out_of_window now issued_at config.tolerance)) 400 timestamp_out_of_window
    canonical ← text_or_throw (canonicalize (query_payload config h))
    signature_or_reject (verify_message h.payer h.signature canonical true)

module _ (lower trim : Text → Text) (number : Text → Option ℤ)
    (verify_message : Text → Text → Text → Bool → RpcAnswer Bool) (config : LedgerConfig) where
  unfoldable pub check_query_request :
      Headers → (after_id limit : Option Text) → (now : ℕ) → Answer LedgerQuery
  unfolding read_query_headers verify_query canonicalize_ledger_query normalize_identity_key
      read_digits
  check_query_request headers after_id_raw limit_raw now = do
    h ← read_query_headers headers
    after_id ← after_id_of number after_id_raw
    limit ← limit_of number limit_raw
    verify_query verify_message config canonicalize_ledger_query h now
    answer (record {
      identity_key = normalize_identity_key lower trim h.payer;
      query_id = h.request_id;
      query_issued_at = read_digits 0 h.issued_at_raw;
      after_id = after_id;
      limit = limit;
    })

  unfoldable pub ledger :
      Headers
      → (after_id limit : Option Text) → (now : ℕ) → (meanwhile recorded : Storage → Storage)
      → Storage
      → Answer Statement × Storage
  unfolding check_query_request record_balance_query statement_of
  ledger headers after_id_raw limit_raw now meanwhile recorded s =
      read_statement now (check_query_request headers after_id_raw limit_raw now) meanwhile recorded
        s
