-- ===== src/Verifier/Agreement.antt =====
-- The two ways to check a payment: `verify` against `verifyAndReserve` of
-- packages/verifier/src/prepaid-sig.ts.
use v.Base.{ℕ, ◌≡◌, ◌≢◌, ◌∙◌, refl, sym, ap, none, inl, inr, Option-cases}
use v.Protocol.Types.{Checked, valid, invalid}
use v.Protocol.Amount.{human_to_sats}
use v.Protocol.Headers.{parse_payment_headers}
use v.Storage.State.{Storage}
use v.Storage.Requests.{reserve_payment}
use v.Verifier.Types.{
  IncomingPaymentRequest, RoutePolicy, VerifyError, Reply, accepted, failed, protocol_thrown,
  storage_thrown, Reserved, CheckedClaim, PrepaidSigVerifierConfig, Environment,
}
use v.Verifier.Checks.{run_checks}
use v.Verifier.PrepaidSig.{
  verified_of, reserve_input, reserve_checked, reserve_if_checked, existing_row, price_sats, verify,
  verify_and_reserve,
}
use v.Verifier.Payment.{Checked-cases, reply-accepted}

failed_inj : {A : Type 0} {x y : VerifyError} → ◌≡◌ {A = Reply A} (failed x) (failed y) → x ≡ y
failed_inj e = cc

module _ {State : Type 0} (env : Environment State) (config : PrepaidSigVerifierConfig)
    (request : IncomingPaymentRequest) (policy : RoutePolicy) (now : ℕ) where
  verify-price :
      (s : Storage) (checked : CheckedClaim) (sats : ℕ)
      → run_checks env config request policy now s ≡ accepted checked
      → human_to_sats policy.price_human ≡ valid sats
      → verify env config request policy now s ≡ accepted (verified_of checked sats)
  unfolding verify
  verify-price s checked sats passed price = rw (passed, verify) (rw (price, price_sats) refl)

  if_checked-verify :
      (meanwhile : Storage → Storage) (s : Storage) (r : Reserved) (reply : Reply CheckedClaim)
      → run_checks env config request policy now s ≡ reply
      → (reserve_if_checked config request policy reply meanwhile s).0 ≡ accepted r
      → verify env config request policy now s ≡ accepted r.verified
  unfolding reserve_checked
  if_checked-verify meanwhile s r (accepted checked) passed e =
      elim (Checked-cases (human_to_sats policy.price_human)) [
        | inr (code, bad) ↦ absurd (cc (rw (bad, reserve_checked) at e))
        | inl (sats, price) ↦
            let (granted, named) =
              reply-accepted config checked sats
                (reserve_payment (reserve_input request checked sats) (meanwhile s)).0 r
                (rw (price, reserve_checked) at e) in
            verify-price s checked sats passed price ∙ ap accepted (sym named)
      ]
  if_checked-verify meanwhile s r (failed x) passed e = absurd (cc e)
  if_checked-verify meanwhile s r (protocol_thrown x) passed e = absurd (cc e)
  if_checked-verify meanwhile s r (storage_thrown x) passed e = absurd (cc e)

  price-not_failed :
      (e : VerifyError) (checked : CheckedClaim) (c : Checked ℕ)
      → human_to_sats policy.price_human ≡ c
      → (s : Storage) → run_checks env config request policy now s ≡ accepted checked
      → verify env config request policy now s ≢ failed e
  unfolding verify
  price-not_failed e checked (valid sats) price s passed bad =
      cc (rw (price, price_sats) at (rw (passed, verify) at bad))
  price-not_failed e checked (invalid code) price s passed bad =
      cc (rw (price, price_sats) at (rw (passed, verify) at bad))

  failed-checks :
      (s : Storage) (e : VerifyError) (reply : Reply CheckedClaim)
      → run_checks env config request policy now s ≡ reply
      → verify env config request policy now s ≡ failed e
      → reply ≡ failed e
  unfolding verify
  failed-checks s e (accepted checked) passed bad =
      absurd (price-not_failed e checked (human_to_sats policy.price_human) refl s passed bad)
  failed-checks s e (failed x) passed bad = ap failed (failed_inj (rw (passed, verify) at bad))
  failed-checks s e (protocol_thrown x) passed bad = absurd (cc (rw (passed, verify) at bad))
  failed-checks s e (storage_thrown x) passed bad = absurd (cc (rw (passed, verify) at bad))

  -- Verification alone agrees with verification and reservation: what is accepted with a reservation is
  -- accepted alone with the same request, payer and amount, and an error found alone is the error of a
  -- first reservation, which then leaves the storage as the checks found it.
  pub verify_agrees :
      (before meanwhile : Storage → Storage) (s : Storage)
      → ((r : Reserved)
          → (verify_and_reserve env config request policy now before meanwhile s).0 ≡ accepted r
          → verify env config request policy now (before s) ≡ accepted r.verified)
        × ((e : VerifyError)
            → existing_row (parse_payment_headers env.lower request.headers) s ≡ none
            → verify env config request policy now (before s) ≡ failed e
            → verify_and_reserve env config request policy now before meanwhile s
              ≡ (failed e, before s))
  unfolding verify_and_reserve
  verify_agrees before meanwhile s = (
    λ r e. elim (Option-cases (existing_row (parse_payment_headers env.lower request.headers) s)) [
      | inr (row, found) ↦ absurd (cc (rw (found, verify_and_reserve) at e))
      | inl fresh ↦
          if_checked-verify meanwhile (before s) r
            (run_checks env config request policy now (before s)) refl
            (rw (fresh, verify_and_reserve) at e)
    ],
    λ e fresh bad.
        rw (fresh, verify_and_reserve)
          (rw
            (failed-checks (before s) e (run_checks env config request policy now (before s)) refl
              bad)
            refl),
  )
