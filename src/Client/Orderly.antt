-- ===== src/Client/Orderly.antt =====
-- What the handshake sends, one request after the other
-- (packages/client-fetch/src/handshake.ts).
use v.Base.{
  ℕ, zero, suc, ◌-◌, ◌≡◌, ◌⊎◌, refl, sym, ◌∙◌, ◌+◌, inl, inr, true, Option, none, some, List, [],
  ◌∷◌, ◌==◌, ==_iff, Bool-cases,
}
use mathlib.Core.Path.{subst}
use v.Base.Text.{Text}
use v.Protocol.Types.{PaymentRequirement, Checked, valid, invalid, ExtensionField}
use v.Client.AcceptsCache.{AcceptsCache}
use v.Client.Types.{
  Response, PaidRequest, Sent, plain, paid, Answer, answer, network_error, Exchange, Surroundings,
  ClientWorld, ClientResult, returned, failed, protocol_failed, rejected,
}
use v.Client.Handshake.{
  PaymentFetchConfig, Call, Parsed402, challenge, unreadable, parse_402, exchange, attempts,
  after_attempt, last_attempt, is_busy, body_bytes, body_hash, send_signed, sign_and_send,
  send_with_body, send_paid, settle_round, remember, forget, recover_with, is_price_mismatch,
  rounds, take_challenge, cached_round, preflight, look_up, start_from, paid_fetch,
}

abbrev pub Is402 : Answer → Type 0
Is402 (answer response) = response.status ≡ 402
Is402 network_error = ⊥

-- The request repeats the one before it, or that one was answered by a 402.
abbrev pub Ready : Sent → List Exchange → Type 0
Ready s [] = Unit
Ready s (e ∷ es) = (s ≡ e.sent) ⊎ Is402 e.answered

-- Every request of the list, which has the newest first, was ready when it was sent.
abbrev pub IsOrderly : List Exchange → Type 0
IsOrderly [] = Unit
IsOrderly (e ∷ es) = Ready e.sent es × IsOrderly es

abbrev ReadyForAny : List Exchange → Type 0
ReadyForAny [] = Unit
ReadyForAny (e ∷ es) = Is402 e.answered

any-Ready : (s : Sent) (es : List Exchange) → ReadyForAny es → Ready s es
any-Ready s [] h = tt
any-Ready s (e ∷ es) h = inr h

-- The answer that was the last.
abbrev LastIs : Response → List Exchange → Type 0
LastIs response [] = ⊥
LastIs response (e ∷ es) = e.answered ≡ answer response

last-ReadyForAny :
    (response : Response) (es : List Exchange)
    → (response.status == 402) ≡ true
    → LastIs response es
    → ReadyForAny es
last-ReadyForAny response [] is h = absurd h
last-ReadyForAny response (e ∷ es) is h = subst Is402 (sym h) ((==_iff response.status 402).0 is)

abbrev Good : ClientResult × ClientWorld → Type 0
Good (returned response, w) = IsOrderly w.exchanges × LastIs response w.exchanges
Good (failed code, w) = IsOrderly w.exchanges
Good (protocol_failed code, w) = IsOrderly w.exchanges
Good (rejected, w) = IsOrderly w.exchanges

-- The newest exchange is this request with this answer.
abbrev Newest : PaidRequest → Answer → List Exchange → Type 0
Newest request a [] = ⊥
Newest request a (e ∷ es) = (paid request ≡ e.sent) × (e.answered ≡ a)

Newest-LastIs :
    (request : PaidRequest) (response : Response) (es : List Exchange)
    → Newest request (answer response) es
    → LastIs response es
Newest-LastIs request response [] h = absurd h
Newest-LastIs request response (e ∷ es) h = h.1

Newest-Ready :
    (request : PaidRequest) (a : Answer) (es : List Exchange)
    → Newest request a es
    → Ready (paid request) es
Newest-Ready request a [] h = tt
Newest-Ready request a (e ∷ es) h = inl h.0

module _ (env : Surroundings) (config : PaymentFetchConfig) where
  last_attempt-Good :
      (request : PaidRequest) (p : Answer × ClientWorld)
      → IsOrderly p.1.exchanges
      → Newest request p.0 p.1.exchanges
      → Good (last_attempt env config p)
  last_attempt-Good request (network_error, w) orderly newest = orderly
  last_attempt-Good request (answer response, w) orderly newest =
      (orderly, Newest-LastIs request response w.exchanges newest)

  after_attempt-Good :
      (request : PaidRequest) (again : ClientWorld → ClientResult × ClientWorld)
      (p : Answer × ClientWorld)
      → ((w : ClientWorld)
          → Ready (paid request) w.exchanges
          → IsOrderly w.exchanges
          → Good (again w))
      → IsOrderly p.1.exchanges
      → Newest request p.0 p.1.exchanges
      → Good (after_attempt env config again p)
  after_attempt-Good request again (network_error, w) good orderly newest =
      good w (Newest-Ready request network_error w.exchanges newest) orderly
  after_attempt-Good request again (answer response, w) good orderly newest =
      elim (Bool-cases (is_busy env config response)) [
        | inl busy ↦
            rw busy (good _ (Newest-Ready request (answer response) w.exchanges newest) orderly)
        | inr idle ↦ rw idle (orderly, Newest-LastIs request response w.exchanges newest)
      ]

  attempts-Good :
      (left : ℕ) (request : PaidRequest) (w : ClientWorld)
      → Ready (paid request) w.exchanges
      → IsOrderly w.exchanges
      → Good (attempts env config left request w)
  unfolding attempts exchange
  attempts-Good zero request w ready orderly =
      last_attempt-Good request (exchange env config (paid request) w) (ready, orderly) (refl, refl)
  attempts-Good (suc left) request w ready orderly =
      after_attempt-Good request (attempts env config left request)
        (exchange env config (paid request) w) (attempts-Good left request) (ready, orderly)
        (refl, refl)

  module _ (call : Call) where
    send_signed-Good :
        (requirement : PaymentRequirement) (extensions : List ExtensionField) (request_id : Text)
        (issued_at : ℕ) (signature : Option Text) (w : ClientWorld)
        → ReadyForAny w.exchanges
        → IsOrderly w.exchanges
        → Good (send_signed env config call requirement extensions request_id issued_at signature w)
    send_signed-Good requirement extensions request_id issued_at none w ready orderly = orderly
    send_signed-Good requirement extensions request_id issued_at (some signature) w ready orderly =
        attempts-Good config.max_retries _ w (any-Ready _ w.exchanges ready) orderly

    sign_and_send-Good :
        (requirement : PaymentRequirement) (extensions : List ExtensionField) (request_id : Text)
        (issued_at : ℕ) (text : Checked Text) (w : ClientWorld)
        → ReadyForAny w.exchanges
        → IsOrderly w.exchanges
        → Good (sign_and_send env config call requirement extensions request_id issued_at text w)
    sign_and_send-Good requirement extensions request_id issued_at (invalid code) w ready orderly =
        orderly
    sign_and_send-Good requirement extensions request_id issued_at (valid canonical) w ready
          orderly =
        send_signed-Good requirement extensions request_id issued_at (env.sign_message canonical) w
          ready orderly

    send_with_body-Good :
        (requirement : PaymentRequirement) (bytes : Option (List ℕ)) (w : ClientWorld)
        → ReadyForAny w.exchanges
        → IsOrderly w.exchanges
        → Good (send_with_body env config call requirement bytes w)
    send_with_body-Good requirement none w ready orderly = orderly
    send_with_body-Good requirement (some bytes) w ready orderly =
        sign_and_send-Good requirement (body_hash env config bytes) _ _ _
          (record w { draws = w.draws + 1 }) ready orderly

    send_paid-Good :
        (requirement : PaymentRequirement) (w : ClientWorld)
        → ReadyForAny w.exchanges
        → IsOrderly w.exchanges
        → Good (send_paid env config call requirement w)
    unfolding send_paid
    send_paid-Good requirement w ready orderly =
        send_with_body-Good requirement (body_bytes env config call.body) w ready orderly

    settle-Good :
        (requirement : PaymentRequirement)
        (on_402 : Response → ClientWorld → ClientResult × ClientWorld)
        (p : ClientResult × ClientWorld)
        → Good p
        → ((response : Response) (w : ClientWorld)
            → ReadyForAny w.exchanges
            → IsOrderly w.exchanges
            → LastIs response w.exchanges
            → Good (on_402 response w))
        → Good (settle_round env config call requirement on_402 p)
    unfolding remember forget
    settle-Good requirement on_402 (returned response, w) (orderly, last) next =
        elim (Bool-cases (response.status == 402)) [
          | inl is ↦
              rw is (next response _ (last-ReadyForAny response w.exchanges is last) orderly last)
          | inr other ↦ rw other (orderly, last)
        ]
    settle-Good requirement on_402 (failed code, w) h next = h
    settle-Good requirement on_402 (protocol_failed code, w) h next = h
    settle-Good requirement on_402 (rejected, w) h next = h

    recover-Good :
        (again : PaymentRequirement → ClientWorld → ClientResult × ClientWorld)
        (response : Response) (w : ClientWorld) (c : Parsed402)
        → ((requirement : PaymentRequirement) → Good (again requirement w))
        → IsOrderly w.exchanges
        → LastIs response w.exchanges
        → Good (recover_with env config call again response w c)
    recover-Good again response w (unreadable code) good orderly last = orderly
    recover-Good again response w (challenge requirement error_code) good orderly last =
        elim (Bool-cases (is_price_mismatch env config call error_code)) [
          | inl mismatch ↦ rw mismatch (good requirement)
          | inr other ↦ rw other (orderly, last)
        ]

    rounds-Good :
        (left : ℕ) (requirement : PaymentRequirement) (w : ClientWorld)
        → ReadyForAny w.exchanges
        → IsOrderly w.exchanges
        → Good (rounds env config call left requirement w)
    unfolding rounds
    rounds-Good zero requirement w ready orderly =
        settle-Good requirement (λ response w'. (returned response, w'))
          (send_paid env config call requirement w) (send_paid-Good requirement w ready orderly)
          (λ response w' ready' orderly' last. (orderly', last))
    rounds-Good (suc left) requirement w ready orderly =
        settle-Good requirement
          (λ response w'.
            recover_with env config call (rounds env config call left) response w'
              (parse_402 response))
          (send_paid env config call requirement w) (send_paid-Good requirement w ready orderly)
          (λ response w' ready' orderly' last.
            recover-Good (rounds env config call left) response w' (parse_402 response)
              (λ requirement'. rounds-Good left requirement' w' ready' orderly') orderly' last)

    challenge-Good :
        (go : PaymentRequirement → ClientWorld → ClientResult × ClientWorld) (w : ClientWorld)
        (c : Parsed402)
        → ((requirement : PaymentRequirement) → Good (go requirement w))
        → IsOrderly w.exchanges
        → Good (take_challenge env config call go w c)
    challenge-Good go w (unreadable code) good orderly = orderly
    challenge-Good go w (challenge requirement error_code) good orderly = good requirement

    preflight-Good :
        (p : Answer × ClientWorld)
        → IsOrderly p.1.exchanges
        → ((response : Response) → p.0 ≡ answer response → LastIs response p.1.exchanges)
        → Good (preflight env config call p)
    preflight-Good (network_error, w) orderly last = orderly
    preflight-Good (answer response, w) orderly last = elim (Bool-cases (response.status == 402)) [
      | inl is ↦ rw is (
          challenge-Good (rounds env config call config.price_mismatch_retries) w
            (parse_402 response)
            (λ requirement.
              rounds-Good config.price_mismatch_retries requirement w
                (last-ReadyForAny response w.exchanges is (last response refl)) orderly)
            orderly)
      | inr other ↦ rw other (orderly, last response refl)
    ]

    start-Good :
        (p : Option PaymentRequirement × ClientWorld)
        → p.1.exchanges ≡ []
        → Good (start_from env config call p)
    unfolding cached_round exchange
    start-Good (none, w) start =
        preflight-Good (exchange env config plain w)
          (subst (Ready plain) (sym start) tt, subst IsOrderly (sym start) tt) (λ response e. e)
    start-Good (some requirement, w) start =
        settle-Good requirement
          (λ response w'.
            take_challenge env config call
              (rounds env config call (config.price_mismatch_retries - 1)) w' (parse_402 response))
          (send_paid env config call requirement w)
          (send_paid-Good requirement w (subst ReadyForAny (sym start) tt)
            (subst IsOrderly (sym start) tt))
          (λ response w' ready orderly last.
            challenge-Good (rounds env config call (config.price_mismatch_retries - 1)) w'
              (parse_402 response)
              (λ requirement'.
                rounds-Good (config.price_mismatch_retries - 1) requirement' w' ready orderly)
              orderly)

    look_up-exchanges :
        (w : ClientWorld) (c : Option AcceptsCache)
        → (look_up env config call w c).1.exchanges ≡ w.exchanges
    look_up-exchanges w none = refl
    look_up-exchanges w (some c) = refl

    Good-IsOrderly : (p : ClientResult × ClientWorld) → Good p → IsOrderly p.1.exchanges
    Good-IsOrderly (returned response, w) h = h.0
    Good-IsOrderly (failed code, w) h = h
    Good-IsOrderly (protocol_failed code, w) h = h
    Good-IsOrderly (rejected, w) h = h

    -- In a paid fetch that starts with nothing sent, every request after the first repeats the request
    -- before it, with the same id and signature, or follows an answer of 402: after a network error, a
    -- 503 or a 429 no second id is drawn, whatever the network answers.
    pub paid_fetch-IsOrderly :
        (w : ClientWorld) → w.exchanges ≡ [] → IsOrderly (paid_fetch env config call w).1.exchanges
    unfolding paid_fetch
    paid_fetch-IsOrderly w start =
        Good-IsOrderly (paid_fetch env config call w)
          (start-Good (look_up env config call w w.cache) (look_up-exchanges w w.cache ∙ start))
