-- ===== src/Client/Honest.antt =====
-- The client and the server together: what packages/client-fetch/src/handshake.ts sends for the
-- challenge of packages/verifier/src/accepts.ts, runChecks of packages/verifier/src/prepaid-sig.ts
-- accepts. The request has no body.
use v.Base.{
  ℕ, ◌+◌, ◌≤◌, ◌≡◌, refl, ap, ◌∙◌, Bool, true, false, not, ◌&&◌, none, some, List, [], ◌∷◌, ltb,
  arith, if◌then◌else◌,
}
use v.Base.Text.{Text, text_eq, text_eq_refl}
use v.Base.Dict.{Dict}
use v.Base.Strings.{cut, starts_with}
use v.Protocol.Types.{
  valid, PaymentClaim, PaymentRequirement, scheme_verus_prepaid_sig, scheme_context_line,
}
use v.Protocol.Amount.{is_base64_signature}
use v.Protocol.Canonical.{canonicalize}
use v.Protocol.Headers.{normalize_identity_key, parse_scheme_header, parse_payment_headers}
use v.Storage.State.{Storage}
use v.Storage.Records.{is_blocked}
use v.Verifier.Types.{
  IncomingPaymentRequest, BodyHashPolicy, RoutePolicy, accepted, PrepaidSigVerifierConfig, answered,
  Environment,
}
use v.Verifier.Checks.{
  or_empty, version_or_default, is_required, lists, payload_of, is_out_of_window,
  is_signature_valid, decode_fields, find_body_hash, check_body_hash, decode_extensions, run_checks,
}
use v.Verifier.Registry.{verifier_of}
use v.Verifier.Accepts.{PaymentAdvertisement, accepts_entry}
use v.Verifier.Forward.{header-then, demand-then, reply-then, canonical-then, signature-then}
use v.Client.Ulid.{ulid}
use v.Client.Types.{no_body, PaidRequest, Surroundings, ClientWorld}
use v.Client.Handshake.{
  PaymentFetchConfig, Call, request_target, payload_for, payment_headers, body_bytes,
  send_with_body, sign_and_send, send_signed, attempts, send_paid,
}
use v.Client.Claim.{LowersHeaders, canonicalize-IsSendable, stated_claim, parse-payment_headers}

-- What arrives of a request without a body.
abbrev pub arriving : PaidRequest → IncomingPaymentRequest
arriving r = record { method = r.method; path = r.path; headers = r.headers; raw_body = none }

-- The advertisement of a verifier's own fields.
abbrev pub advertisement_of : PrepaidSigVerifierConfig → Text → PaymentAdvertisement
advertisement_of server facilitator_url = record {
  canonical_domain = server.canonical_domain;
  network = server.network;
  asset = server.asset;
  pay_to = server.pay_to;
  facilitator_url = facilitator_url;
}

parse_own_scheme :
    (version : Text)
    → parse_scheme_header (scheme_context_line scheme_verus_prepaid_sig version)
      ≡ (scheme_verus_prepaid_sig, some version)
unfolding parse_scheme_header cut starts_with
parse_own_scheme version = refl

lists-first : (version : Text) (more : List Text) → lists (version ∷ more) (some version) ≡ true
unfolding lists
lists-first version more = rw (text_eq_refl version) refl

no_body_needed : (p : BodyHashPolicy) → not (is_required p && false) ≡ true
no_body_needed BodyHashPolicy.required = refl
no_body_needed BodyHashPolicy.optional = refl
no_body_needed BodyHashPolicy.ignored = refl

no_hash : {A : Type 0} (b : Bool) (x : List A) → (if b && ltb 0 0 then x else []) ≡ []
no_hash true x = refl
no_hash false x = refl

in_window :
    (now issued_at tolerance : ℕ)
    → issued_at ≤ now + tolerance
    → now ≤ issued_at + tolerance
    → is_out_of_window now issued_at tolerance ≡ false
in_window now issued_at tolerance early late = ground arith

module _ {State : Type 0} (senv : Environment State) (server : PrepaidSigVerifierConfig)
    (policy : RoutePolicy) (env : Surroundings) (config : PaymentFetchConfig) (call : Call)
    (facilitator_url : Text) (registry : Dict (List Text)) where
  -- The challenge of the route, and the payload that the client signs for it.
  abbrev pub challenge_of : PaymentRequirement
  challenge_of =
      accepts_entry (advertisement_of server facilitator_url) registry policy
        scheme_verus_prepaid_sig

  abbrev pub request_with : (request_id : Text) (issued_at : ℕ) (signature : Text) → PaidRequest
  request_with request_id issued_at signature = record {
    method = env.upper call.method;
    path = request_target env config call;
    request_id = request_id;
    headers = payment_headers env config call challenge_of [] request_id issued_at signature;
  }

  no_extensions :
      (claim : PaymentClaim) (r : IncomingPaymentRequest) (limit : ℕ)
      → claim.extensions_raw ≡ none
      → r.raw_body ≡ none
      → decode_extensions senv limit claim r policy ≡ accepted []
  unfolding decode_extensions decode_fields find_body_hash check_body_hash
  no_extensions claim r limit plain empty =
      rw plain (rw empty (rw (no_body_needed policy.body_hash_policy) refl))

  module _ (version : Text) (more : List Text) (versions : server.scheme_versions ≡ version ∷ more)
      (registered : verifier_of scheme_verus_prepaid_sig registry
        ≡ some server.scheme_versions) where
    challenge-version : challenge_of.scheme_version ≡ version
    unfolding accepts_entry
    challenge-version = rw registered (rw versions refl)

    same_payload :
        (request_id : Text) (issued_at : ℕ) (signature : Text)
        → payload_of server
            (arriving (request_with request_id issued_at signature))
            policy
            (stated_claim config challenge_of request_id issued_at signature)
            version
            []
          ≡ payload_for env config call challenge_of [] request_id issued_at
    unfolding accepts_entry
    same_payload request_id issued_at signature = rw registered (rw versions refl)

    challenge-line :
        scheme_context_line challenge_of.scheme challenge_of.scheme_version
        ≡ scheme_context_line scheme_verus_prepaid_sig version
    unfolding accepts_entry
    challenge-line = rw registered (rw versions refl)

    parse-challenge :
        parse_scheme_header (scheme_context_line challenge_of.scheme challenge_of.scheme_version)
        ≡ (scheme_verus_prepaid_sig, some version)
    parse-challenge = ap parse_scheme_header challenge-line ∙ parse_own_scheme version

    challenge-amount : text_eq challenge_of.amount policy.price_human ≡ true
    unfolding accepts_entry
    challenge-amount = text_eq_refl policy.price_human

    -- The checks on what arrives.
    request-passes :
        (l : LowersHeaders senv.lower) (request_id : Text) (issued_at now : ℕ)
        (text signature : Text) (s : Storage)
        → canonicalize (payload_for env config call challenge_of [] request_id issued_at)
          ≡ valid text
        → is_base64_signature signature ≡ true
        → is_signature_valid senv config.payer signature text ≡ answered true
        → issued_at ≤ now + server.timestamp_tolerance_sec
        → now ≤ issued_at + server.timestamp_tolerance_sec
        → is_blocked (normalize_identity_key senv.lower senv.trim config.payer) s ≡ false
        → run_checks senv server
            (arriving (request_with request_id issued_at signature))
            policy
            now
            s
          ≡ accepted (record {
            claim = stated_claim config challenge_of request_id issued_at signature;
            identity_key = normalize_identity_key senv.lower senv.trim config.payer;
            received_at = now;
          })
    unfolding run_checks
    request-passes l request_id issued_at now text signature s signed encoded good early late free =
        let (amount, payer, id, seconds) =
          canonicalize-IsSendable (payload_for env config call challenge_of [] request_id issued_at)
            text signed in
        let claim = stated_claim config challenge_of request_id issued_at signature in
        let header = scheme_context_line challenge_of.scheme challenge_of.scheme_version in
        let r = arriving (request_with request_id issued_at signature) in
        let version_of =
          or_empty (version_or_default (parse_scheme_header header).1 server.scheme_versions) in
        let version_is : version_of ≡ version =
          ap (λ q. or_empty (version_or_default q.1 server.scheme_versions)) parse-challenge in
        header-then (parse_payment_headers senv.lower r.headers) _
          (parse-payment_headers senv.lower l env config call challenge_of request_id issued_at
            signature amount payer id seconds encoded)
          (demand-then (text_eq (parse_scheme_header header).0 scheme_verus_prepaid_sig) _ _ _ _
            (ap (λ q. text_eq q.0 scheme_verus_prepaid_sig) parse-challenge
              ∙ text_eq_refl scheme_verus_prepaid_sig)
            (demand-then
              (lists server.scheme_versions
                (version_or_default (parse_scheme_header header).1 server.scheme_versions))
              _ _ _ _
              (ap
                  (λ q.
                    lists server.scheme_versions (version_or_default q.1 server.scheme_versions))
                  parse-challenge
                ∙ rw versions (lists-first version more))
              (demand-then (text_eq challenge_of.amount policy.price_human) _ _ _ _ challenge-amount
                (reply-then (decode_extensions senv server.max_extensions_bytes claim r policy) _
                  (no_extensions claim r server.max_extensions_bytes refl refl)
                  (demand-then (not (is_out_of_window now issued_at server.timestamp_tolerance_sec))
                    _ _ _ _
                    (ap not (in_window now issued_at server.timestamp_tolerance_sec early late))
                    (demand-then
                      (not
                        (is_blocked (normalize_identity_key senv.lower senv.trim config.payer) s))
                      _ _ _ _ (ap not free)
                      (canonical-then
                        (canonicalize (payload_of server r policy claim version_of [])) _ _
                        (ap (λ v. canonicalize (payload_of server r policy claim v [])) version_is
                          ∙ ap canonicalize (same_payload request_id issued_at signature)
                          ∙ signed)
                        (signature-then (is_signature_valid senv config.payer signature text) _ good
                          refl))))))))

    -- What the client sends for the challenge.
    send_paid-sends :
        (w : ClientWorld) (text signature : Text)
        → call.body ≡ no_body
        → canonicalize (
            payload_for env config call challenge_of []
              (ulid (env.draw w.draws).timestamp (env.draw w.draws).random)
              (env.draw w.draws).now)
          ≡ valid text
        → env.sign_message text ≡ some signature
        → send_paid env config call challenge_of w
          ≡ attempts env config config.max_retries
              (request_with
                (ulid (env.draw w.draws).timestamp (env.draw w.draws).random)
                (env.draw w.draws).now
                signature)
              (record w { draws = w.draws + 1 })
    unfolding send_paid
    send_paid-sends w text signature empty signed sealed =
        let draw = env.draw w.draws in
        let id = ulid draw.timestamp draw.random in
        let w' : ClientWorld = record w { draws = w.draws + 1 } in
        ap (λ b. send_with_body env config call challenge_of (body_bytes env config b) w) empty
        ∙ ap
            (λ x.
              sign_and_send env config call challenge_of x id draw.now
                (canonicalize (payload_for env config call challenge_of x id draw.now)) w')
            (no_hash config.hashes_body _)
        ∙ ap (λ c. sign_and_send env config call challenge_of [] id draw.now c w') signed
        ∙ ap (λ o. send_signed env config call challenge_of [] id draw.now o w') sealed

    -- For the challenge that a server of this scheme advertises from its own fields, a client without a
    -- body sends the same request in every attempt, and that request passes all of the server's checks,
    -- with the payer, the amount, the id and the time that the client signed, where: the payload is one
    -- that canonicalize accepts and the signer signs, with a signature in base64 that the server's
    -- node confirms for that text; the two clocks are within the tolerance; the payer is not blocked;
    -- and the names of the headers are lowered as in ASCII.
    pub honest_request_passes :
        (l : LowersHeaders senv.lower) (w : ClientWorld) (text signature : Text) (now : ℕ)
        (s : Storage)
        → call.body ≡ no_body
        → canonicalize (
            payload_for env config call challenge_of []
              (ulid (env.draw w.draws).timestamp (env.draw w.draws).random)
              (env.draw w.draws).now)
          ≡ valid text
        → env.sign_message text ≡ some signature
        → is_base64_signature signature ≡ true
        → is_signature_valid senv config.payer signature text ≡ answered true
        → (env.draw w.draws).now ≤ now + server.timestamp_tolerance_sec
        → now ≤ (env.draw w.draws).now + server.timestamp_tolerance_sec
        → is_blocked (normalize_identity_key senv.lower senv.trim config.payer) s ≡ false
        → let request =
            request_with
              (ulid (env.draw w.draws).timestamp (env.draw w.draws).random)
              (env.draw w.draws).now
              signature in
          (send_paid env config call challenge_of w
            ≡ attempts env config config.max_retries request (record w { draws = w.draws + 1 }))
          × (run_checks senv server (arriving request) policy now s
              ≡ accepted (record {
                claim =
                    stated_claim config challenge_of
                      (ulid (env.draw w.draws).timestamp (env.draw w.draws).random)
                      (env.draw w.draws).now
                      signature;
                identity_key = normalize_identity_key senv.lower senv.trim config.payer;
                received_at = now;
              }))
    honest_request_passes l w text signature now s empty signed sealed encoded good early late
          free =
        (
          send_paid-sends w text signature empty signed sealed,
          request-passes l (ulid (env.draw w.draws).timestamp (env.draw w.draws).random)
              (env.draw w.draws).now now text signature s signed encoded good early late free,
        )
