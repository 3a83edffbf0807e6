-- ===== src/Client/Limits.antt =====
-- How many requests one paid fetch makes (packages/client-fetch/src/handshake.ts).
use v.Base.{
  ℕ, zero, suc, ◌+◌, ◌-◌, ◌*◌, ◌≤◌, ◌≡◌, refl, inl, inr, Option, none, some, List, arith, ◌==◌,
  Bool-cases,
}
use v.Base.Text.{Text}
use v.Base.Lists.{length}
use v.Protocol.Types.{PaymentRequirement, Checked, valid, invalid, ExtensionField}
use v.Client.AcceptsCache.{AcceptsCache}
use v.Client.Types.{
  Response, PaidRequest, plain, paid, Answer, answer, network_error, Surroundings, ClientWorld,
  ClientResult, returned, failed, protocol_failed, rejected,
}
use v.Client.Handshake.{
  PaymentFetchConfig, Call, Parsed402, challenge, unreadable, parse_402, exchange, attempts,
  after_attempt, last_attempt, is_busy, body_bytes, body_hash, send_signed, sign_and_send,
  send_with_body, send_paid, settle_round, remember, forget, recover_with, is_price_mismatch,
  rounds, take_challenge, cached_round, preflight, look_up, start_from, paid_fetch,
}

abbrev count : ClientWorld → ℕ
count w = length w.exchanges

more : (p c : ℕ) → suc p * c + c ≤ (suc p + 2) * c
more p c = grind arith

fewer : (p c : ℕ) → suc (p - 1) * c + c ≤ (p + 2) * c
fewer zero c = omega arith
fewer (suc p) c = let e : suc p - 1 ≡ p = omega arith in rw e (more p c)

module _ (env : Surroundings) (config : PaymentFetchConfig) where
  attempts-count :
      (left : ℕ) (request : PaidRequest) (w : ClientWorld)
      → count (attempts env config left request w).1 ≤ count w + left + 1
  unfolding attempts exchange
  attempts-count zero request w = last (exchange env config (paid request) w) (omega arith)
    where
      last :
          (p : Answer × ClientWorld)
          → count p.1 ≤ count w + 1
          → count (last_attempt env config p).1 ≤ count w + 0 + 1
      last (network_error, w') h = omega (arith, h)
      last (answer response, w') h = omega (arith, h)
  attempts-count (suc left) request w =
      next (attempts env config left request) (attempts-count left request)
        (exchange env config (paid request) w) (omega arith)
    where
      next :
          (again : ClientWorld → ClientResult × ClientWorld)
          → ((v : ClientWorld) → count (again v).1 ≤ count v + left + 1)
          → (p : Answer × ClientWorld) → count p.1 ≤ count w + 1
          → count (after_attempt env config again p).1 ≤ count w + suc left + 1
      next again bound (network_error, w') h = omega (arith, h, bound w')
      next again bound (answer response, w') h = elim (Bool-cases (is_busy env config response)) [
        | inl busy ↦ rw busy (omega (arith, h, bound _))
        | inr idle ↦ rw idle (omega (arith, h))
      ]

  module _ (call : Call) where
    -- The requests of one round.
    abbrev per_round : ℕ
    per_round = config.max_retries + 1

    send_signed-count :
        (requirement : PaymentRequirement) (extensions : List ExtensionField) (request_id : Text)
        (issued_at : ℕ) (signature : Option Text) (w : ClientWorld)
        → count
            (send_signed env config call requirement extensions request_id issued_at signature w).1
          ≤ count w + per_round
    send_signed-count requirement extensions request_id issued_at none w = omega arith
    send_signed-count requirement extensions request_id issued_at (some signature) w =
        omega (arith, attempts-count config.max_retries _ w)

    sign_and_send-count :
        (requirement : PaymentRequirement) (extensions : List ExtensionField) (request_id : Text)
        (issued_at : ℕ) (text : Checked Text) (w : ClientWorld)
        → count (sign_and_send env config call requirement extensions request_id issued_at text w).1
          ≤ count w + per_round
    sign_and_send-count requirement extensions request_id issued_at (invalid code) w = omega arith
    sign_and_send-count requirement extensions request_id issued_at (valid canonical) w =
        send_signed-count requirement extensions request_id issued_at (env.sign_message canonical) w

    send_with_body-count :
        (requirement : PaymentRequirement) (bytes : Option (List ℕ)) (w : ClientWorld)
        → count (send_with_body env config call requirement bytes w).1 ≤ count w + per_round
    send_with_body-count requirement none w = omega arith
    send_with_body-count requirement (some bytes) w =
        sign_and_send-count requirement (body_hash env config bytes) _ _ _
          (record w { draws = w.draws + 1 })

    send_paid-count :
        (requirement : PaymentRequirement) (w : ClientWorld)
        → count (send_paid env config call requirement w).1 ≤ count w + per_round
    unfolding send_paid
    send_paid-count requirement w =
        send_with_body-count requirement (body_bytes env config call.body) w

    settle-count :
        (requirement : PaymentRequirement)
        (on_402 : Response → ClientWorld → ClientResult × ClientWorld) (more : ℕ)
        (p : ClientResult × ClientWorld)
        → ((response : Response) (w : ClientWorld) → count (on_402 response w).1 ≤ count w + more)
        → count (settle_round env config call requirement on_402 p).1 ≤ count p.1 + more
    unfolding remember forget
    settle-count requirement on_402 more (returned response, w) h =
        elim (Bool-cases (response.status == 402)) [
          | inl is ↦ rw is (h response _)
          | inr other ↦ rw other (omega arith)
        ]
    settle-count requirement on_402 more (failed code, w) h = omega arith
    settle-count requirement on_402 more (protocol_failed code, w) h = omega arith
    settle-count requirement on_402 more (rejected, w) h = omega arith

    recover-count :
        (again : PaymentRequirement → ClientWorld → ClientResult × ClientWorld) (more : ℕ)
        (response : Response) (w : ClientWorld) (c : Parsed402)
        → ((requirement : PaymentRequirement) (v : ClientWorld)
            → count (again requirement v).1 ≤ count v + more)
        → count (recover_with env config call again response w c).1 ≤ count w + more
    recover-count again more response w (unreadable code) h = omega arith
    recover-count again more response w (challenge requirement error_code) h =
        elim (Bool-cases (is_price_mismatch env config call error_code)) [
          | inl mismatch ↦ rw mismatch (h requirement w)
          | inr other ↦ rw other (omega arith)
        ]

    rounds-count :
        (left : ℕ) (requirement : PaymentRequirement) (w : ClientWorld)
        → count (rounds env config call left requirement w).1 ≤ count w + suc left * per_round
    unfolding rounds
    rounds-count zero requirement w = omega (
      arith,
      settle-count requirement (λ response w'. (returned response, w')) 0
          (send_paid env config call requirement w) (λ response w'. omega arith),
      send_paid-count requirement w,
    )
    rounds-count (suc left) requirement w = omega (
      arith,
      settle-count requirement
          (λ response w'.
            recover_with env config call (rounds env config call left) response w'
              (parse_402 response))
          (suc left * per_round) (send_paid env config call requirement w)
          (λ response w'.
            recover-count (rounds env config call left) (suc left * per_round) response w'
              (parse_402 response) (rounds-count left)),
      send_paid-count requirement w,
    )

    challenge-count :
        (left : ℕ) (w : ClientWorld) (c : Parsed402)
        → count (take_challenge env config call (rounds env config call left) w c).1
          ≤ count w + suc left * per_round
    challenge-count left w (unreadable code) = omega arith
    challenge-count left w (challenge requirement error_code) = rounds-count left requirement w

    preflight-count :
        (p : Answer × ClientWorld)
        → count (preflight env config call p).1
          ≤ count p.1 + suc config.price_mismatch_retries * per_round
    preflight-count (network_error, w) = omega arith
    preflight-count (answer response, w) = elim (Bool-cases (response.status == 402)) [
      | inl is ↦ rw is (challenge-count config.price_mismatch_retries w (parse_402 response))
      | inr other ↦ rw other (omega arith)
    ]

    cached_round-count :
        (requirement : PaymentRequirement) (w : ClientWorld)
        → count (cached_round env config call requirement w).1
          ≤ count w + per_round + suc (config.price_mismatch_retries - 1) * per_round
    unfolding cached_round
    cached_round-count requirement w = omega (
      arith,
      settle-count requirement
          (λ response w'.
            take_challenge env config call
              (rounds env config call (config.price_mismatch_retries - 1)) w' (parse_402 response))
          (suc (config.price_mismatch_retries - 1) * per_round)
          (send_paid env config call requirement w)
          (λ response w'.
            challenge-count (config.price_mismatch_retries - 1) w' (parse_402 response)),
      send_paid-count requirement w,
    )

    start-count :
        (p : Option PaymentRequirement × ClientWorld)
        → count (start_from env config call p).1
          ≤ count p.1 + 1 + (config.price_mismatch_retries + 2) * per_round
    unfolding exchange
    start-count (none, w) = omega (arith, preflight-count (exchange env config plain w))
    start-count (some requirement, w) =
        omega
          (arith, cached_round-count requirement w, fewer config.price_mismatch_retries per_round)

    look_up-count :
        (w : ClientWorld) (c : Option AcceptsCache)
        → count (look_up env config call w c).1 ≡ count w
    look_up-count w none = refl
    look_up-count w (some c) = refl

    -- A paid fetch ends after at most one unpaid request and priceMismatchRetries + 2 rounds of at
    -- most maxRetries + 1 requests, whatever the network answers.
    pub paid_fetch-count :
        (w : ClientWorld)
        → count (paid_fetch env config call w).1
          ≤ count w + 1 + (config.price_mismatch_retries + 2) * (config.max_retries + 1)
    unfolding paid_fetch
    paid_fetch-count w =
        omega (arith, start-count (look_up env config call w w.cache), look_up-count w w.cache)
