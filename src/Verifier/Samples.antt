-- ===== src/Verifier/Samples.antt =====
-- A server, a request that it accepts, and a funded account: the data of the tests.
use v.Base.{true, none, some, List, [], ◌∷◌}
use v.Base.Int.{pos}
use v.Base.Text.{Text, codes}
use v.Protocol.Headers.{one, Headers}
use v.Storage.Types.{
  IdentityRecord, DepositOrigin, InsertDepositInput, ReservePaymentInput, SpentRequestRecord,
  SpentRequestStatus,
}
use v.Storage.History.{Call, mint, reserve}
use v.Verifier.Types.{
  IncomingPaymentRequest, BodyHashPolicy, RoutePolicy, Reserved, PrepaidSigVerifierConfig, answered,
  Environment,
}

abbrev pub alice : Text
alice = codes "a@"

abbrev pub ulid : Text
ulid = codes "01234567890123456789012345"

abbrev pub coins : InsertDepositInput
coins = record {
  txid = codes "t";
  vout = 0;
  identity_id = alice;
  amount_sats = pos 200000000;
  currency = codes "V";
  block_height = 7;
  block_hash = codes "h";
  confirmations = pos 1;
  detected_at = 1;
  origin = DepositOrigin.simulated;
  created_by = none;
  note = none;
}

abbrev pub funded : List Call
funded = mint coins 2 ∷ []

abbrev pub server : Environment (Unit {0})
server = record {
  lower = λ t. t;
  trim = λ t. t;
  sha256_hex = λ _. [];
  from_base64 = λ t. t;
  to_utf8 = λ t. t;
  verify_message = λ _ _ _ _. answered true;
  identity_provider = none;
}

abbrev pub config : PrepaidSigVerifierConfig
config = record {
  network = codes "vrsctest";
  asset = codes "VRSCTEST";
  pay_to = codes "api@";
  canonical_domain = codes "x.org";
  timestamp_tolerance_sec = 300;
  max_extensions_bytes = 4096;
  scheme_versions = codes "0.1" ∷ [];
}

abbrev pub headers : Headers
headers =
    (codes "X-V402-Scheme", some (one (codes "verus-prepaid-sig/0.1")))
    ∷ (codes "X-V402-Payer", some (one alice))
    ∷ (codes "X-V402-Amount", some (one (codes "0.5")))
    ∷ (codes "X-V402-Request-Id", some (one ulid))
    ∷ (codes "X-V402-Issued-At", some (one (codes "5")))
    ∷ (codes "X-V402-Signature", some (one (codes "QUJD")))
    ∷ []

abbrev pub request : IncomingPaymentRequest
request = record { method = codes "GET"; path = codes "/v1"; headers = headers; raw_body = none }

abbrev pub policy : RoutePolicy
policy = record { price_human = codes "0.5"; body_hash_policy = BodyHashPolicy.optional }

abbrev pub payment : ReservePaymentInput
payment = record {
  request_id = ulid;
  identity_id = alice;
  issued_at = 5;
  received_at = 6;
  amount_sats = pos 50000000;
  method = codes "GET";
  path = codes "/v1";
}

abbrev pub pending : SpentRequestRecord
pending = record {
  request_id = ulid;
  identity_id = alice;
  issued_at = 5;
  received_at = 6;
  amount_sats = pos 50000000;
  method = codes "GET";
  path = codes "/v1";
  status = SpentRequestStatus.reserved;
  response_bytes = none;
}

abbrev pub debtor : IdentityRecord
debtor = record {
  identity_id = alice;
  balance_sats = pos 150000000;
  created_at = 2;
  first_deposit_at = some 2;
  last_request_at = some 6;
}

-- A storage with the payment reserved.
abbrev pub held : List Call
held = mint coins 2 ∷ reserve payment ∷ []

abbrev pub receipt : Reserved
receipt = record {
  verified = record { request_id = ulid; payer = alice; amount_sats = 50000000 };
  balance_after_sats = pos 150000000;
}
