-- ===== src/Client/Tests.antt =====
-- Runs of the handshake (packages/client-fetch/src) against small networks.
use v.Base.{
  ℕ, ◌+◌, ◌*◌, ◌≤◌, ◌≡◌, ◌≢◌, refl, true, false, Option, none, some, List, [], ◌∷◌, map, arith,
  if◌then◌else◌, ◌==◌,
}
use v.Base.Text.{Text, codes, text_eq}
use v.Base.Lists.{length}
use v.Base.Strings.{is_upper}
use v.Base.Dict.{Dict, get, set, delete}
use v.Protocol.Types.{PaymentRequirement, scheme_verus_prepaid_sig}
use v.Protocol.Canonical.{is_valid_ulid}
use v.Protocol.Types.{Checked, valid, invalid, CanonicalPayload}
use v.Protocol.Amount.{is_valid_human_amount, is_base64_signature}
use v.Protocol.Extensions.{is_kebab, all_words, serialize_extension_block}
use v.Protocol.Canonical.{
  canonicalize, check_payload, is_scheme_version, is_line_safe, is_method, assert_path,
  has_dot_segment, is_network,
}
use v.Protocol.Headers.{normalize_identity_key}
use v.Base.Strings.{all_units, split, cut, starts_with, ends_with, includes, join}
use v.Base.Decimal.{decimal, decimal_fuel}
use v.Base.Dict.{has}
use v.Storage.State.{empty_storage}
use v.Storage.Records.{is_blocked}
use v.Verifier.Types.{Environment, accepted, answered}
use v.Verifier.Checks.{is_signature_valid, run_checks}
use v.Verifier.Registry.{verifier_of}
use v.Verifier.Accepts.{accepts_entry}
use v.Verifier.Samples
use v.Verifier.Samples.{server, policy}
use v.Client.Ulid.{ulid, encode, unit_at}
use v.Client.Claim.{LowersHeaders, stated_claim}
use v.Client.Honest.{challenge_of, request_with, arriving, honest_request_passes}
use v.Client.Ulid.Valid.{ulid-is_valid_ulid, ulid-injective}
use v.Client.AcceptsCache.{
  key_for, get_requirement, drop_oldest, set_requirement, delete_requirement,
}
use v.Client.Types.{
  envelope, Response, no_body, Answer, answer, network_error, Surroundings, ClientWorld,
}
use v.Client.Handshake.{
  PaymentFetchConfig, resolve_config, Call, find_offer, parse_402, retry_after_ms, exchange,
  attempts, payload_for, request_target, payment_headers, send_paid, cache_key, remember, forget,
  rounds, cached_round, paid_fetch,
}
use v.Client.Orderly.{IsOrderly, paid_fetch-IsOrderly}
use v.Client.Limits.{paid_fetch-count}

abbrev offered : PaymentRequirement
offered = record {
  scheme = scheme_verus_prepaid_sig;
  scheme_version = codes "0.1";
  network = codes "vrsctest";
  asset = codes "VRSCTEST";
  amount = codes "0.5";
  pay_to = codes "api@";
  canonical_domain = codes "x.org";
}

abbrev challenged : Option Text → Response
challenged error_code = record {
  status = 402;
  body =
      envelope (record { scheme = scheme_verus_prepaid_sig; requirement = some offered } ∷ [])
        error_code;
  retry_after = none;
}

abbrev with_status : ℕ → Response
with_status status = record { status = status; body = envelope [] none; retry_after = none }

-- A challenge, then no answer, then a busy server, then the answer.
abbrev flaky : ℕ → Answer
flaky n =
    if n == 0
    then answer (challenged none)
    else if n == 1
    then network_error
    else if n == 2
    then answer (with_status 503)
    else answer (with_status 200)

-- A server whose price never fits.
abbrev dear : ℕ → Answer
dear n = answer (challenged (some (codes "price-mismatch")))

abbrev surroundings : (ℕ → Answer) → Surroundings
surroundings net = record {
  upper = λ t. t;
  fetch = λ es sent. net (length es);
  draw = λ n. record { timestamp = 1700000000000; random = n; now = 5 };
  cache_now = λ es. 7;
  sign_message = λ t. some (codes "QUJD");
  sha256_hex = λ bytes. [];
  to_base64 = λ t. t;
}

abbrev config : PaymentFetchConfig
config = resolve_config (codes "a@") none none none false

abbrev call : Call
call = record {
  method = codes "GET";
  origin = codes "http://x.org";
  pathname = codes "/v1";
  search = [];
  body = no_body;
}

abbrev idle : ClientWorld
idle = record { exchanges = []; draws = 0; slept = []; cache = none }

paid_fetch-IsOrderly_example :
    IsOrderly (paid_fetch (surroundings flaky) config call idle).1.exchanges
paid_fetch-IsOrderly_example = paid_fetch-IsOrderly (surroundings flaky) config call idle refl

paid_fetch-count_example :
    length (paid_fetch (surroundings dear) config call idle).1.exchanges ≤ 0 + 1 + (1 + 2) * (2 + 1)
paid_fetch-count_example = paid_fetch-count (surroundings dear) config call idle

ulid-is_valid_ulid_example : is_valid_ulid (ulid 1700000000000 77) ≡ true
ulid-is_valid_ulid_example = ulid-is_valid_ulid 1700000000000 77 (omega arith)

ulid-injective_example : ulid 1700000000000 77 ≢ ulid 1700000000001 78
ulid-injective_example =
    ulid-injective 1700000000000 1700000000001 77 78 (omega arith) (omega arith) (omega arith)

-- A world whose cache holds the endpoint's challenge.
abbrev remembering : ClientWorld
remembering = record idle {
  cache = some (record {
    ttl_sec = 300;
    max_entries = 1000;
    entries = (codes "GET http://x.org/v1", record { requirement = offered; stored_at = 5 }) ∷ [];
  });
}

-- With a budget of one recovery, the 402 to the remembered challenge and the 402 to the next round
-- are all that is sent: no recovery is left for the price mismatch.
stale_round_uses_budget :
    length (paid_fetch (surroundings dear) config call remembering).1.exchanges ≡ 2
unfolding paid_fetch get_requirement cached_round rounds exchange parse_402 find_offer send_paid
    remember forget set_requirement delete_requirement cache_key key_for attempts payment_headers
    request_target retry_after_ms ulid encode unit_at canonicalize check_payload is_kebab all_words
    split all_units is_scheme_version cut starts_with is_line_safe is_method assert_path includes
    has_dot_segment is_network is_valid_human_amount is_valid_ulid ends_with join
    serialize_extension_block decimal decimal_fuel drop_oldest get set delete text_eq
stale_round_uses_budget = refl

-- `toLowerCase` on ASCII.
abbrev ascii_lower : Text → Text
ascii_lower t = map (λ c. if is_upper c then c + 32 else c) t

abbrev node : Environment (Unit {0})
node = record server { lower = ascii_lower }

lowers : LowersHeaders node.lower
lowers = record {
  scheme = refl;
  payer = refl;
  amount = refl;
  request_id = refl;
  issued_at = refl;
  signature = refl;
  extensions = refl;
}

abbrev registry : Dict (List Text)
registry = (scheme_verus_prepaid_sig, codes "0.1" ∷ []) ∷ []

abbrev text_of : Checked Text → Text
text_of (valid t) = t
text_of (invalid code) = []

abbrev id : Text
id = ulid 1700000000000 0

abbrev payload : CanonicalPayload
payload =
    payload_for (surroundings flaky) config call
      (challenge_of node Samples.config policy (surroundings flaky) config call [] registry) [] id 5

payload-text : canonicalize payload ≡ valid (text_of (canonicalize payload))
unfolding accepts_entry verifier_of request_target ulid encode unit_at canonicalize check_payload
    is_kebab all_words split all_units is_scheme_version cut starts_with is_line_safe is_method
    assert_path includes has_dot_segment is_network is_valid_human_amount is_valid_ulid ends_with
    join serialize_extension_block decimal decimal_fuel get text_eq
payload-text = refl

own-versions : verifier_of scheme_verus_prepaid_sig registry ≡ some (codes "0.1" ∷ [])
unfolding verifier_of get text_eq
own-versions = refl

signature-encoded : is_base64_signature (codes "QUJD") ≡ true
unfolding is_base64_signature
signature-encoded = refl

signature-good :
    is_signature_valid node (codes "a@") (codes "QUJD") (text_of (canonicalize payload))
    ≡ answered true
unfolding is_signature_valid
signature-good = refl

payer-free :
    is_blocked (normalize_identity_key ascii_lower (λ t. t) (codes "a@")) empty_storage ≡ false
unfolding is_blocked has get normalize_identity_key
payer-free = refl

honest_request_passes_example :
    let env = surroundings flaky in
    let request =
      request_with node Samples.config policy env config call [] registry id 5 (codes "QUJD") in
    (send_paid env config call
        (challenge_of node Samples.config policy env config call [] registry)
        idle
      ≡ attempts env config 2 request (record idle { draws = 1 }))
    × (run_checks node Samples.config (arriving request) policy 6 empty_storage
        ≡ accepted (record {
          claim =
              stated_claim config
                (challenge_of node Samples.config policy env config call [] registry)
                id
                5
                (codes "QUJD");
          identity_key = normalize_identity_key ascii_lower (λ t. t) (codes "a@");
          received_at = 6;
        }))
honest_request_passes_example =
    honest_request_passes node Samples.config policy (surroundings flaky) config call [] registry
      (codes "0.1") [] refl own-versions lowers idle (text_of (canonicalize payload)) (codes "QUJD")
      6 empty_storage refl payload-text refl signature-encoded signature-good (omega arith)
      (omega arith) payer-free
