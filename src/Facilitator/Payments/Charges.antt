-- ===== src/Facilitator/Payments/Charges.antt =====
-- What a reservation over the payment API charges (packages/facilitator/src/api/payments.controller.ts).
use v.Base.{
  ℕ, ◌≡◌, refl, Bool-cases, true, false, List, [], ◌∷◌, inl, inr, ap, sym, Option, none, some,
}
use v.Base.Text.{Text, text_eq}
use mathlib.Core.Path.{subst, ◌∙◌}
use v.Base.Dict.{Dict, get, keys}
use v.Protocol.Types.{valid, scheme_verus_prepaid_sig}
use v.Protocol.Amount.{human_to_sats}
use v.Storage.State.{Storage}
use v.Storage.Step.Solvent.{Solvent}
use v.Verifier.Types.{
  Reply, accepted, failed, protocol_thrown, storage_thrown, Reserved, CheckedClaim,
  PrepaidSigVerifierConfig, Environment, VerifyErrorCode, supported_schemes, fail,
  IncomingPaymentRequest, Verified,
}
use v.Verifier.PrepaidSig.{verify_and_reserve, reserve_input, verified_of}
use v.Verifier.Passes.{Passes, accepted_inj}
use v.Verifier.Payment.{accepted-Pays, Grants}
use v.Verifier.Registry.{verifier_of, supported_schemes_of}
use mathlib.Core.Option
use v.Base.Int.{ℤ}
use v.Base.Decimal.{decimal}
use v.Facilitator.Balance.{sats_text}
use v.Facilitator.Payments.Scheme.{name_of, NamesPrepaid, named-NamesPrepaid}
use v.Facilitator.Payments.{
  decoded, PaymentRequestBody, SchemeVerifier, ReserveAnswer, reserve_answer, answered_with,
  reply_with, to_incoming_request, verifier_for, post_reserve, prepaid_sig_verifier,
}

reply_with-accepted :
    {A B : Type 0} (f : A → B) (reply : Reply A) (b : B)
    → reply_with f reply ≡ accepted b
    → (a : A) × (reply ≡ accepted a) × (f a ≡ b)
reply_with-accepted f (accepted a) b e = (a, refl, accepted_inj e)
reply_with-accepted f (failed x) b e = absurd (cc e)
reply_with-accepted f (protocol_thrown x) b e = absurd (cc e)
reply_with-accepted f (storage_thrown x) b e = absurd (cc e)

-- A registry with the one verifier.
abbrev pub prepaid_registry : SchemeVerifier → Dict SchemeVerifier
prepaid_registry verifier = (scheme_verus_prepaid_sig, verifier) ∷ []

post_reserve-found :
    (from_base64 : Text → List ℕ) (verifier : SchemeVerifier) (default_scheme : Text)
    (body : PaymentRequestBody) (s : Storage)
    → text_eq scheme_verus_prepaid_sig (name_of default_scheme body) ≡ true
    → post_reserve from_base64 (prepaid_registry verifier) default_scheme body s
      ≡ answered_with reserve_answer
          (verifier.verify_and_reserve (to_incoming_request from_base64 body) body.policy s)
unfolding post_reserve verifier_for verifier_of get
post_reserve-found from_base64 verifier default_scheme body s e = rw e refl

post_reserve-unknown :
    (from_base64 : Text → List ℕ) (verifier : SchemeVerifier) (default_scheme : Text)
    (body : PaymentRequestBody) (s : Storage)
    → text_eq scheme_verus_prepaid_sig (name_of default_scheme body) ≡ false
    → post_reserve from_base64 (prepaid_registry verifier) default_scheme body s ≡ (
      fail 402 VerifyErrorCode.unsupported_scheme
          (supported_schemes (scheme_verus_prepaid_sig ∷ [])),
      s,
    )
unfolding post_reserve verifier_for verifier_of get supported_schemes_of keys
post_reserve-unknown from_base64 verifier default_scheme body s e = rw e refl

-- The request that a body describes.
abbrev pub described : (Text → List ℕ) → PaymentRequestBody → IncomingPaymentRequest
described from_base64 body = record {
  method = body.method;
  path = body.path;
  headers = body.headers;
  raw_body = Option.map from_base64 body.raw_body_base64;
}

incoming-described :
    (from_base64 : Text → List ℕ) (body : PaymentRequestBody)
    → to_incoming_request from_base64 body ≡ described from_base64 body
incoming-described from_base64 body = ap at (decoded_map body.raw_body_base64)
  where
    at : Option (List ℕ) → IncomingPaymentRequest
    at raw = record {
      method = body.method;
      path = body.path;
      headers = body.headers;
      raw_body = raw;
    }

    decoded_map : (o : Option Text) → decoded from_base64 o ≡ Option.map from_base64 o
    decoded_map none = refl
    decoded_map (some raw) = refl

-- The answer shows the claim's request, the account that paid, the price, and what is left.
abbrev pub IsReceipt : ReserveAnswer → CheckedClaim → (sats : ℕ) → (left : ℤ) → Type 0
IsReceipt shown checked sats left =
    (shown.request_id ≡ checked.claim.request_id)
    × (shown.payer ≡ checked.identity_key)
    × (shown.amount_sats ≡ decimal sats)
    × (shown.balance_after_sats ≡ sats_text left)

reserve_answer-IsReceipt :
    (shown : ReserveAnswer) (checked : CheckedClaim) (sats : ℕ) (r : Reserved)
    → reserve_answer r ≡ shown
    → r.verified ≡ verified_of checked sats
    → IsReceipt shown checked sats r.balance_after_sats
reserve_answer-IsReceipt shown checked sats r same verified = (
  ap (λ (a : ReserveAnswer). a.request_id) (sym same)
      ∙ ap (λ (v : Verified). v.request_id) verified,
  ap (λ (a : ReserveAnswer). a.payer) (sym same) ∙ ap (λ (v : Verified). v.payer) verified,
  ap (λ (a : ReserveAnswer). a.amount_sats) (sym same)
      ∙ ap (λ (v : Verified). decimal v.amount_sats) verified,
  ap (λ (a : ReserveAnswer). a.balance_after_sats) (sym same),
)

-- What an answered reservation stands for: a request that passed the checks, the debit of its price,
-- and a receipt of it.
abbrev pub Charges :
    {State : Type 0}
    → Environment State
    → PrepaidSigVerifierConfig
    → PaymentRequestBody
    → (now : ℕ) → (before meanwhile : Storage → Storage) → Storage
    → ReserveAnswer
    → Storage
    → Type 0
Charges env config body now before meanwhile s shown t =
    let request = described env.from_base64 body in
    (checked : CheckedClaim) × (sats : ℕ) × (left : ℤ) × Passes env config request body.policy now
      (before s) checked
    × (human_to_sats body.policy.price_human ≡ valid sats)
    × Grants (reserve_input request checked sats) (meanwhile (before s)) left t
    × IsReceipt shown checked sats left

module _ {State : Type 0} (env : Environment State) (config : PrepaidSigVerifierConfig)
    (default_scheme : Text) (body : PaymentRequestBody) (now : ℕ)
    (before meanwhile : Storage → Storage) (s : Storage) (shown : ReserveAnswer) where
  answered-Charges :
      (p : Reply Reserved × Storage)
      → verify_and_reserve env config
          (described env.from_base64 body)
          body.policy
          now
          before
          meanwhile
          s
        ≡ p
      → Solvent (meanwhile (before s))
      → (answered_with reserve_answer p).0 ≡ accepted shown
      → Charges env config body now before meanwhile s shown p.1
  answered-Charges (reply, t) made solvent e =
      let request = described env.from_base64 body in
      let (r, granted, same) = reply_with-accepted reserve_answer reply shown e in
      let (checked, passed, (sats, price, (verified, paid))) =
        accepted-Pays env config request body.policy now before meanwhile s r solvent
          (ap (λ q. q.0) made ∙ granted) in
      (
        checked,
        sats,
        r.balance_after_sats,
        passed,
        price,
        subst
            (Grants (reserve_input request checked sats) (meanwhile (before s))
              r.balance_after_sats)
            (ap (λ q. q.1) made) paid,
        reserve_answer-IsReceipt shown checked sats r same verified,
      )

  -- With the prepaid-signature scheme registered, and a storage that is solvent when the reservation
  -- runs, an answered reservation is for a body whose scheme header, or default, names that scheme; the
  -- request with the body's method, path, headers and decoded raw body passed every check; its price in
  -- satoshis went from the payer's balance, which covered it, under an unused id; and the answer shows
  -- that id, payer and price and the balance that is left.
  pub post_reserve-Charges :
      Solvent (meanwhile (before s))
      → (post_reserve env.from_base64
          (prepaid_registry (prepaid_sig_verifier env config now before meanwhile))
          default_scheme
          body
          s).0
        ≡ accepted shown
      → NamesPrepaid default_scheme body
        × Charges env config body now before meanwhile s shown
            (post_reserve env.from_base64
              (prepaid_registry (prepaid_sig_verifier env config now before meanwhile))
              default_scheme
              body
              s).1
  post_reserve-Charges solvent e =
      let verifier = prepaid_sig_verifier env config now before meanwhile in
      elim (Bool-cases (text_eq scheme_verus_prepaid_sig (name_of default_scheme body))) [
        | inl named ↦
            let done =
              post_reserve-found env.from_base64 verifier default_scheme body s named
              ∙ ap
                  (λ request.
                    answered_with reserve_answer
                      (verify_and_reserve env config request body.policy now before meanwhile s))
                  (incoming-described env.from_base64 body) in
            (
              named-NamesPrepaid default_scheme body named,
              subst (Charges env config body now before meanwhile s shown)
                  (ap (λ q. q.1) (sym done))
                  (answered-Charges _ refl solvent (ap (λ q. q.0) (sym done) ∙ e)),
            )
        | inr unknown ↦
            let refused =
              post_reserve-unknown env.from_base64 verifier default_scheme body s unknown in
            absurd (cc (ap (λ q. q.0) (sym refused) ∙ e))
      ]
