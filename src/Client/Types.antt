-- ===== src/Client/Types.antt =====
-- The errors of packages/client-fetch/src/errors.ts, and what the handshake sees of its surroundings:
-- the network, the signer and the random bits are parameters. The network may answer by all that was
-- sent before. What was sent is kept with its answers, the newest first.
use v.Base.{ℕ, Option, List}
use v.Base.Text.{Text}
use v.Protocol.Types.{PaymentRequirement, V402ProtocolErrorCode}
use v.Protocol.Headers.{Headers}
use v.Client.AcceptsCache.{AcceptsCache}

pub data V402ClientErrorCode : Type 0 where
  no_supported_scheme invalid_402_response unsupported_body_type retries_exhausted
        facilitator_error :
      V402ClientErrorCode

-- An entry of `accepts`: its scheme, and the requirement where the entry has the schema's form.
pub record Offer : Type 0 where
  pub scheme : Text
  pub requirement : Option PaymentRequirement

-- The body of an answer as far as `parse402` reads it.
pub data Body402 : Type 0 where
  not_json not_envelope : Body402
  envelope : (accepts : List Offer) (error_code : Option Text) → Body402

-- `retry_after` is the header's number of seconds times 1000, where it is a finite number from 0.
pub record Response : Type 0 where
  pub status : ℕ
  pub body : Body402
  pub retry_after : Option ℕ

-- The body of the caller's request.
pub data RequestBody : Type 0 where
  no_body : RequestBody
  raw_bytes : List ℕ → RequestBody
  other_body : RequestBody

-- A request without payment, or with the headers that the client adds.
pub record PaidRequest : Type 0 where
  pub method : Text
  pub path : Text
  pub request_id : Text
  pub headers : Headers

pub data Sent : Type 0 where
  plain : Sent
  paid : PaidRequest → Sent

pub data Answer : Type 0 where
  answer : Response → Answer
  network_error : Answer

pub record Exchange : Type 0 where
  pub sent : Sent
  pub answered : Answer

-- One draw: the clock's milliseconds and 80 random bits for an id, and the seconds of `now`.
pub record Draw : Type 0 where
  pub timestamp : ℕ
  pub random : ℕ
  pub now : ℕ

pub record Surroundings : Type 0 where
  pub upper : Text → Text
  pub fetch : List Exchange → Sent → Answer
  pub draw : ℕ → Draw
  pub cache_now : List Exchange → ℕ
  pub sign_message : Text → Option Text
  pub sha256_hex : List ℕ → Text
  pub to_base64 : Text → Text

pub record ClientWorld : Type 0 where
  pub exchanges : List Exchange
  pub draws : ℕ
  pub slept : List ℕ
  pub cache : Option AcceptsCache

-- What the returned promise becomes. `rejected` is an error of the network or of the signer, passed
-- on as it is.
pub data ClientResult : Type 0 where
  returned : Response → ClientResult
  failed : V402ClientErrorCode → ClientResult
  protocol_failed : V402ProtocolErrorCode → ClientResult
  rejected : ClientResult
