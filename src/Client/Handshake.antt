-- ===== src/Client/Handshake.antt =====
-- packages/client-fetch/src/handshake.ts: the 402 handshake. An await is a step of the world that is
-- passed along; the caller's own headers are left out, since those of the payment replace them.
use v.Base.{
  ℕ, zero, suc, ◌+◌, ◌-◌, Bool, true, false, ◌&&◌, ◌||◌, Option, none, some, List, [], ◌∷◌, ◌++◌,
  if◌then◌else◌, ◌==◌, ltb,
}
use v.Base.Text.{Text, codes, text_eq}
use v.Base.Lists.{length}
use v.Base.Decimal.{decimal}
use v.Protocol.Types.{
  PaymentRequirement, Checked, valid, invalid, ExtensionField, CanonicalPayload,
  scheme_verus_prepaid_sig, scheme_context_line,
}
use v.Protocol.Canonical.{canonicalize}
use v.Protocol.Extensions.{serialize_extension_block}
use v.Protocol.Headers.{
  one, Headers, header_scheme, header_payer, header_amount, header_request_id, header_issued_at,
  header_signature, header_extensions,
}
use v.Client.Ulid.{ulid}
use v.Client.AcceptsCache.{
  AcceptsCache, key_for, get_requirement, set_requirement, delete_requirement,
}
use v.Client.Types.{
  V402ClientErrorCode, no_supported_scheme, invalid_402_response, unsupported_body_type,
  retries_exhausted, Offer, Body402, not_json, not_envelope, envelope, Response, RequestBody,
  no_body, raw_bytes, other_body, PaidRequest, Sent, plain, paid, Answer, answer, network_error,
  Surroundings, ClientWorld, ClientResult, returned, failed, protocol_failed, rejected,
}

-- `PaymentFetchConfig` after `resolveConfig`; the cache is in the world.
pub record PaymentFetchConfig : Type 0 where
  pub payer : Text
  pub max_retries : ℕ
  pub price_mismatch_retries : ℕ
  pub hashes_body : Bool
  pub max_retry_after_ms : ℕ

abbrev pub or_given : ℕ → Option ℕ → ℕ
or_given value none = value
or_given value (some given) = given

-- `hashes_body` is whether `bodyHash` is "auto", which it is unless the caller says "never".
abbrev pub resolve_config :
    Text
    → (max_retries price_mismatch_retries max_retry_after_ms : Option ℕ) → (never_hash : Bool)
    → PaymentFetchConfig
resolve_config payer max_retries price_mismatch_retries max_retry_after_ms never_hash = record {
  payer = payer;
  max_retries = or_given 2 max_retries;
  price_mismatch_retries = or_given 1 price_mismatch_retries;
  hashes_body = if never_hash then false else true;
  max_retry_after_ms = or_given 5000 max_retry_after_ms;
}

-- The caller's request: `url` and `init`.
pub record Call : Type 0 where
  pub method : Text
  pub origin : Text
  pub pathname : Text
  pub search : Text
  pub body : RequestBody

pub data Parsed402 : Type 0 where
  challenge : PaymentRequirement → (error_code : Option Text) → Parsed402
  unreadable : V402ClientErrorCode → Parsed402

unfoldable pub find_offer : List Offer → Option Offer
find_offer [] = none
find_offer (o ∷ os) = if text_eq o.scheme scheme_verus_prepaid_sig then some o else find_offer os

abbrev pub read_requirement : Option Text → Option PaymentRequirement → Parsed402
read_requirement error_code none = unreadable invalid_402_response
read_requirement error_code (some requirement) = challenge requirement error_code

abbrev pub read_offer : Option Text → Option Offer → Parsed402
read_offer error_code none = unreadable no_supported_scheme
read_offer error_code (some o) = read_requirement error_code o.requirement

abbrev pub parse_body : Body402 → Parsed402
parse_body not_json = unreadable invalid_402_response
parse_body not_envelope = unreadable invalid_402_response
parse_body (envelope accepts error_code) = read_offer error_code (find_offer accepts)

unfoldable pub parse_402 : Response → Parsed402
unfolding find_offer
parse_402 response = parse_body response.body

abbrev pub min_ms : ℕ → ℕ → ℕ
min_ms a b = if ltb b a then b else a

unfoldable pub retry_after_ms : Option ℕ → ℕ → ℕ
retry_after_ms none cap = min_ms 1000 cap
retry_after_ms (some ms) cap = min_ms ms cap

module _ (env : Surroundings) (config : PaymentFetchConfig) where
  -- A call of `fetch`.
  unfoldable pub exchange : Sent → ClientWorld → Answer × ClientWorld
  exchange sent w =
      let a = env.fetch w.exchanges sent in
      (a, record w { exchanges = record { sent = sent; answered = a } ∷ w.exchanges })

  abbrev pub sleep : ℕ → ClientWorld → ClientWorld
  sleep ms w = record w { slept = ms ∷ w.slept }

  abbrev pub is_busy : Response → Bool
  is_busy response = response.status == 503 || response.status == 429

  abbrev pub last_attempt : Answer × ClientWorld → ClientResult × ClientWorld
  last_attempt (network_error, w) = (failed retries_exhausted, w)
  last_attempt (answer response, w) = (returned response, w)

  abbrev pub after_attempt :
      (ClientWorld → ClientResult × ClientWorld) → Answer × ClientWorld → ClientResult × ClientWorld
  after_attempt again (network_error, w) = again w
  after_attempt again (answer response, w) =
      if is_busy response
      then again (sleep (retry_after_ms response.retry_after config.max_retry_after_ms) w)
      else (returned response, w)

  -- The transient retries; `left` is `maxRetries - attempt`.
  unfoldable pub attempts : (left : ℕ) → PaidRequest → ClientWorld → ClientResult × ClientWorld
  unfolding exchange retry_after_ms
  attempts zero request w = last_attempt (exchange (paid request) w)
  attempts (suc left) request w = after_attempt (attempts left request) (exchange (paid request) w)

  -- The bytes of the body; nothing where its type is not supported.
  abbrev pub body_bytes : RequestBody → Option (List ℕ)
  body_bytes no_body = some []
  body_bytes (raw_bytes bytes) = some bytes
  body_bytes other_body = none

  abbrev pub body_hash : List ℕ → List ExtensionField
  body_hash bytes =
      if config.hashes_body && ltb 0 (length bytes)
      then record { key = codes "scheme.bodyHash"; value = codes "sha256:" ++ env.sha256_hex bytes }
        ∷ []
      else []

  module _ (call : Call) where
    unfoldable pub request_target : Text
    request_target = call.pathname ++ call.search

    abbrev pub payload_for :
        PaymentRequirement
        → List ExtensionField
        → (request_id : Text) (issued_at : ℕ) → CanonicalPayload
    payload_for requirement extensions request_id issued_at = record {
      scheme = requirement.scheme;
      scheme_version = requirement.scheme_version;
      canonical_domain = requirement.canonical_domain;
      method = env.upper call.method;
      path = request_target;
      network = requirement.network;
      asset = requirement.asset;
      amount = requirement.amount;
      payer = config.payer;
      pay_to = requirement.pay_to;
      request_id = request_id;
      issued_at = issued_at;
      extensions = extensions;
    }

    -- The header of the extensions, where there are any. `serializeExtensionBlock` has passed in
    -- `canonicalize` before.
    abbrev pub extensions_header : List ExtensionField → Checked Text → Headers
    extensions_header [] block = []
    extensions_header (f ∷ fs) (invalid code) = []
    extensions_header (f ∷ fs) (valid block) =
        (header_extensions, some (one (env.to_base64 block))) ∷ []

    unfoldable pub payment_headers :
        PaymentRequirement
        → List ExtensionField
        → (request_id : Text) (issued_at : ℕ) → Text
        → Headers
    unfolding serialize_extension_block decimal
    payment_headers requirement extensions request_id issued_at signature =
        (
          header_scheme,
          some (one (scheme_context_line requirement.scheme requirement.scheme_version)),
        )
        ∷ (header_payer, some (one config.payer))
        ∷ (header_amount, some (one requirement.amount))
        ∷ (header_request_id, some (one request_id))
        ∷ (header_issued_at, some (one (decimal issued_at)))
        ∷ (header_signature, some (one signature))
        ∷ extensions_header extensions (serialize_extension_block extensions)

    abbrev pub send_signed :
        PaymentRequirement
        → List ExtensionField
        → (request_id : Text) (issued_at : ℕ) → Option Text
        → ClientWorld
        → ClientResult × ClientWorld
    send_signed requirement extensions request_id issued_at none w = (rejected, w)
    send_signed requirement extensions request_id issued_at (some signature) w =
        attempts config.max_retries
          (record {
            method = env.upper call.method;
            path = request_target;
            request_id = request_id;
            headers = payment_headers requirement extensions request_id issued_at signature;
          })
          w

    abbrev pub sign_and_send :
        PaymentRequirement
        → List ExtensionField
        → (request_id : Text) (issued_at : ℕ) → Checked Text
        → ClientWorld
        → ClientResult × ClientWorld
    sign_and_send requirement extensions request_id issued_at (invalid code) w =
        (protocol_failed code, w)
    sign_and_send requirement extensions request_id issued_at (valid canonical) w =
        send_signed requirement extensions request_id issued_at (env.sign_message canonical) w

    abbrev pub send_with_body :
        PaymentRequirement → Option (List ℕ) → ClientWorld → ClientResult × ClientWorld
    send_with_body requirement none w = (failed unsupported_body_type, w)
    send_with_body requirement (some bytes) w =
        let draw = env.draw w.draws in
        let request_id = ulid draw.timestamp draw.random in
        sign_and_send requirement (body_hash bytes) request_id draw.now
          (canonicalize (payload_for requirement (body_hash bytes) request_id draw.now))
          (record w { draws = w.draws + 1 })

    -- `sendPaid`
    unfoldable pub send_paid : PaymentRequirement → ClientWorld → ClientResult × ClientWorld
    unfolding attempts payment_headers request_target ulid canonicalize
    send_paid requirement w = send_with_body requirement (body_bytes call.body) w

    unfoldable pub cache_key : Text
    unfolding key_for
    cache_key = key_for env.upper call.method call.origin call.pathname

    abbrev pub on_cache : (AcceptsCache → AcceptsCache) → Option AcceptsCache → Option AcceptsCache
    on_cache f none = none
    on_cache f (some c) = some (f c)

    unfoldable pub remember : PaymentRequirement → ClientWorld → ClientWorld
    unfolding set_requirement cache_key
    remember requirement w = record w {
      cache = on_cache (set_requirement (env.cache_now w.exchanges) cache_key requirement) w.cache;
    }

    unfoldable pub forget : ClientWorld → ClientWorld
    unfolding delete_requirement cache_key
    forget w = record w { cache = on_cache (delete_requirement cache_key) w.cache }

    -- What follows a paid answer: `on_402` goes on from a 402.
    abbrev pub settle_round :
        PaymentRequirement
        → (Response → ClientWorld → ClientResult × ClientWorld)
        → ClientResult × ClientWorld
        → ClientResult × ClientWorld
    settle_round requirement on_402 (returned response, w) =
        if response.status == 402
        then on_402 response (forget w)
        else (returned response, remember requirement w)
    settle_round requirement on_402 (failed code, w) = (failed code, w)
    settle_round requirement on_402 (protocol_failed code, w) = (protocol_failed code, w)
    settle_round requirement on_402 (rejected, w) = (rejected, w)

    abbrev pub is_price_mismatch : Option Text → Bool
    is_price_mismatch none = false
    is_price_mismatch (some code) = text_eq code (codes "price-mismatch")

    -- The recovery after a 402 that the budget allows.
    abbrev pub recover_with :
        (PaymentRequirement → ClientWorld → ClientResult × ClientWorld)
        → Response
        → ClientWorld
        → Parsed402
        → ClientResult × ClientWorld
    recover_with again response w (unreadable code) = (failed code, w)
    recover_with again response w (challenge requirement error_code) =
        if is_price_mismatch error_code then again requirement w else (returned response, w)

    -- The rounds that do not come from the cache; `left` is `priceMismatchRetries - recovery`.
    unfoldable pub rounds :
        (left : ℕ) → PaymentRequirement → ClientWorld → ClientResult × ClientWorld
    unfolding send_paid remember forget parse_402
    rounds zero requirement w =
        settle_round requirement (λ response w'. (returned response, w')) (send_paid requirement w)
    rounds (suc left) requirement w =
        settle_round requirement
          (λ response w'. recover_with (rounds left) response w' (parse_402 response))
          (send_paid requirement w)

    -- A 402 that answers a cached requirement, or the first request, carries the challenge.
    abbrev pub take_challenge :
        (PaymentRequirement → ClientWorld → ClientResult × ClientWorld)
        → ClientWorld
        → Parsed402
        → ClientResult × ClientWorld
    take_challenge go w (unreadable code) = (failed code, w)
    take_challenge go w (challenge requirement error_code) = go requirement w

    -- The round from the cache. Its `continue` counts `recovery` up to 1.
    unfoldable pub cached_round : PaymentRequirement → ClientWorld → ClientResult × ClientWorld
    unfolding send_paid remember forget parse_402 rounds
    cached_round requirement w =
        settle_round requirement
          (λ response w'.
            take_challenge (rounds (config.price_mismatch_retries - 1)) w' (parse_402 response))
          (send_paid requirement w)

    -- The unpaid request.
    abbrev pub preflight : Answer × ClientWorld → ClientResult × ClientWorld
    preflight (network_error, w) = (rejected, w)
    preflight (answer response, w) =
        if response.status == 402
        then take_challenge (rounds config.price_mismatch_retries) w (parse_402 response)
        else (returned response, w)

    abbrev pub look_up : ClientWorld → Option AcceptsCache → Option PaymentRequirement × ClientWorld
    look_up w none = (none, w)
    look_up w (some c) =
        let (found, c') = get_requirement (env.cache_now w.exchanges) cache_key c in
        (found, record w { cache = some c' })

    abbrev pub start_from : Option PaymentRequirement × ClientWorld → ClientResult × ClientWorld
    start_from (some requirement, w) = cached_round requirement w
    start_from (none, w) = preflight (exchange plain w)

    -- `paidFetch`
    unfoldable pub paid_fetch : ClientWorld → ClientResult × ClientWorld
    unfolding get_requirement cached_round rounds exchange parse_402
    paid_fetch w = start_from (look_up w w.cache)
