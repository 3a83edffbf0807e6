-- ===== src/Verifier/Payment.antt =====
-- What the methods of packages/verifier/src/prepaid-sig.ts promise about a payment.
use v.Base.{ℕ, ◌≡◌, ◌⊎◌, refl, ap, false, none, some, inl, inr, Bool-cases, Option-cases}
use v.Base.Int.{ℤ, pos, ◌+ℤ◌, ◌-ℤ◌, ◌≤ℤ◌, ltb_ℤ, int_laws}
use v.Base.Dict.{get}
use v.Protocol.Types.{V402ProtocolErrorCode, Checked, valid, invalid}
use v.Protocol.Amount.{human_to_sats}
use v.Protocol.Headers.{parse_payment_headers}
use v.Storage.Types.{IdentityRecord, ReservePaymentInput, ReservePaymentResult}
use v.Storage.State.{Storage, Result, ok, throw}
use v.Storage.Requests.{reserve_payment}
use v.Storage.Refine.Requests.{covered→le}
use v.Storage.Step.Solvent.{Solvent}
use v.Storage.Calls.Requests.{debited, reserve-debits, reserve-refuses}
use v.Verifier.Types.{
  IncomingPaymentRequest, RoutePolicy, Reply, accepted, failed, protocol_thrown, storage_thrown,
  Reserved, CheckedClaim, PrepaidSigVerifierConfig, Environment,
}
use v.Verifier.Checks.{run_checks}
use v.Verifier.PrepaidSig.{
  verified_of, reserve_input, reserve_reply, reserve_checked, reserve_if_checked, existing_row,
  verify_and_reserve,
}
use v.Verifier.Passes.{Passes, run_checks-Passes, accepted_inj}

-- What a granted reservation found, and what it leaves.
abbrev pub Grants : ReservePaymentInput → Storage → ℤ → Storage → Type 0
Grants input s balance_after t =
    (get input.request_id s.spent_requests ≡ none)
    × ((i : IdentityRecord) × (get input.identity_id s.identities ≡ some i)
        × (balance_after +ℤ input.amount_sats ≡ i.balance_sats)
        × (pos 0 ≤ℤ balance_after)
        × (t ≡ debited input i s))

sub_add : (a b : ℤ) → a -ℤ b +ℤ b ≡ a
sub_add a b = omega int_laws

sub_nonneg : (a b : ℤ) → ltb_ℤ a b ≡ false → pos 0 ≤ℤ a -ℤ b
sub_nonneg a b h = omega (int_laws, covered→le b a h)

reserve-Grants :
    (input : ReservePaymentInput) (s : Storage) (b : ℤ)
    → Solvent s
    → (reserve_payment input s).0 ≡ ok (ReservePaymentResult.reserved b)
    → Grants input s b (reserve_payment input s).1
unfolding reserve_payment
reserve-Grants input s b h e = elim (Option-cases (get input.request_id s.spent_requests)) [
  | inr (row, found) ↦ absurd (cc (rw (found, reserve_payment) at e))
  | inl fresh ↦ elim (Option-cases (get input.identity_id s.identities)) [
    | inl unknown ↦
        absurd (cc (rw (unknown, reserve_payment) at (rw (fresh, reserve_payment) at e)))
    | inr (i, known) ↦ elim (Bool-cases (ltb_ℤ i.balance_sats input.amount_sats)) [
      | inl short ↦ absurd (cc (rw (reserve-refuses s h input i fresh known short) at e))
      | inr covered ↦
          let spent : i.balance_sats -ℤ input.amount_sats ≡ b =
            cc (rw (reserve-debits s h input i fresh known covered) at e) in
          (
            fresh,
            (
              i,
              known,
              rw (← spent) (sub_add i.balance_sats input.amount_sats),
              rw (← spent) (sub_nonneg i.balance_sats input.amount_sats covered),
              ap (λ p. p.1) (reserve-debits s h input i fresh known covered),
            ),
          )
    ]
  ]
]

-- An accepted reply, with the storage that the debit left.
abbrev pub Pays :
    PrepaidSigVerifierConfig
    → IncomingPaymentRequest
    → CheckedClaim
    → ℕ
    → Storage
    → Reserved
    → Storage
    → Type 0
Pays config request checked sats s r t =
    (r.verified ≡ verified_of checked sats)
    × Grants (reserve_input request checked sats) s r.balance_after_sats t

pub reply-accepted :
    (config : PrepaidSigVerifierConfig) (checked : CheckedClaim) (sats : ℕ)
    (result : Result ReservePaymentResult) (r : Reserved)
    → reserve_reply config checked sats result ≡ accepted r
    → (result ≡ ok (ReservePaymentResult.reserved r.balance_after_sats))
      × (r.verified ≡ verified_of checked sats)
reply-accepted config checked sats (throw t) r e = absurd (cc e)
reply-accepted config checked sats (ok (ReservePaymentResult.reserved b)) r e =
    rw (← accepted_inj e) (refl, refl)
reply-accepted config checked sats (ok (ReservePaymentResult.replay status)) r e = absurd (cc e)
reply-accepted config checked sats (ok (ReservePaymentResult.insufficient b)) r e = absurd (cc e)
reply-accepted config checked sats (ok ReservePaymentResult.unknown_identity) r e = absurd (cc e)

pub Checked-cases :
    {A : Type 0} (c : Checked A)
    → ((a : A) × (c ≡ valid a)) ⊎ ((code : V402ProtocolErrorCode) × (c ≡ invalid code))
Checked-cases (valid a) = inl (a, refl)
Checked-cases (invalid code) = inr (code, refl)

reserve_checked-Pays :
    (config : PrepaidSigVerifierConfig) (request : IncomingPaymentRequest) (policy : RoutePolicy)
    (checked : CheckedClaim) (s : Storage) (r : Reserved)
    → Solvent s
    → (reserve_checked config request policy checked s).0 ≡ accepted r
    → (sats : ℕ) × (human_to_sats policy.price_human ≡ valid sats)
      × Pays config request checked sats s r (reserve_checked config request policy checked s).1
unfolding reserve_checked
reserve_checked-Pays config request policy checked s r h e =
    elim (Checked-cases (human_to_sats policy.price_human)) [
      | inr (code, bad) ↦ absurd (cc (rw (bad, reserve_checked) at e))
      | inl (sats, price) ↦
          let input = reserve_input request checked sats in
          let (granted, named) =
            reply-accepted config checked sats (reserve_payment input s).0 r
              (rw (price, reserve_checked) at e) in
          (
            sats,
            price,
            rw (price, reserve_checked)
                (named, reserve-Grants input s r.balance_after_sats h granted),
          )
    ]

module _ {State : Type 0} (env : Environment State) (config : PrepaidSigVerifierConfig) where
  if_checked-Pays :
      (request : IncomingPaymentRequest) (policy : RoutePolicy) (now : ℕ)
      (meanwhile : Storage → Storage) (s : Storage) (r : Reserved) (reply : Reply CheckedClaim)
      → run_checks env config request policy now s ≡ reply
      → Solvent (meanwhile s)
      → (reserve_if_checked config request policy reply meanwhile s).0 ≡ accepted r
      → (checked : CheckedClaim) × Passes env config request policy now s checked
        × ((sats : ℕ) × (human_to_sats policy.price_human ≡ valid sats)
            × Pays config request checked sats
                (meanwhile s)
                r
                (reserve_if_checked config request policy reply meanwhile s).1)
  if_checked-Pays request policy now meanwhile s r (accepted checked) passed h e = (
    checked,
    run_checks-Passes env config request policy now s checked passed,
    reserve_checked-Pays config request policy checked (meanwhile s) r h e,
  )
  if_checked-Pays request policy now meanwhile s r (failed x) passed h e = absurd (cc e)
  if_checked-Pays request policy now meanwhile s r (protocol_thrown x) passed h e = absurd (cc e)
  if_checked-Pays request policy now meanwhile s r (storage_thrown x) passed h e = absurd (cc e)

  -- Where the storage is solvent when the reservation runs, an accepted payment has passed every
  -- check, whatever other calls did to the storage in between: its request id was not spent,
  -- exactly the price in satoshis went from the balance of the normalized payer, which covered it,
  -- and the storage is the one before with that debit.
  pub accepted-Pays :
      (request : IncomingPaymentRequest) (policy : RoutePolicy) (now : ℕ)
      (before meanwhile : Storage → Storage) (s : Storage) (r : Reserved)
      → Solvent (meanwhile (before s))
      → (verify_and_reserve env config request policy now before meanwhile s).0 ≡ accepted r
      → (checked : CheckedClaim) × Passes env config request policy now (before s) checked
        × ((sats : ℕ) × (human_to_sats policy.price_human ≡ valid sats)
            × Pays config request checked sats
                (meanwhile (before s))
                r
                (verify_and_reserve env config request policy now before meanwhile s).1)
  unfolding verify_and_reserve
  accepted-Pays request policy now before meanwhile s r h e =
      elim (Option-cases (existing_row (parse_payment_headers env.lower request.headers) s)) [
        | inr (row, found) ↦ absurd (cc (rw (found, verify_and_reserve) at e))
        | inl fresh ↦
            rw (fresh, verify_and_reserve)
              (if_checked-Pays request policy now meanwhile (before s) r
                (run_checks env config request policy now (before s)) refl h
                (rw (fresh, verify_and_reserve) at e))
      ]

  if_checked-Passes :
      (request : IncomingPaymentRequest) (policy : RoutePolicy) (now : ℕ)
      (meanwhile : Storage → Storage) (s : Storage) (r : Reserved) (reply : Reply CheckedClaim)
      → run_checks env config request policy now s ≡ reply
      → (reserve_if_checked config request policy reply meanwhile s).0 ≡ accepted r
      → (checked : CheckedClaim) × Passes env config request policy now s checked
  if_checked-Passes request policy now meanwhile s r (accepted checked) passed e =
      (checked, run_checks-Passes env config request policy now s checked passed)
  if_checked-Passes request policy now meanwhile s r (failed x) passed e = absurd (cc e)
  if_checked-Passes request policy now meanwhile s r (protocol_thrown x) passed e = absurd (cc e)
  if_checked-Passes request policy now meanwhile s r (storage_thrown x) passed e = absurd (cc e)

  pub accepted-Passes :
      (request : IncomingPaymentRequest) (policy : RoutePolicy) (now : ℕ)
      (before meanwhile : Storage → Storage) (s : Storage) (r : Reserved)
      → (verify_and_reserve env config request policy now before meanwhile s).0 ≡ accepted r
      → (checked : CheckedClaim) × Passes env config request policy now (before s) checked
  unfolding verify_and_reserve
  accepted-Passes request policy now before meanwhile s r e =
      elim (Option-cases (existing_row (parse_payment_headers env.lower request.headers) s)) [
        | inr (row, found) ↦ absurd (cc (rw (found, verify_and_reserve) at e))
        | inl fresh ↦
            if_checked-Passes request policy now meanwhile (before s) r
              (run_checks env config request policy now (before s)) refl
              (rw (fresh, verify_and_reserve) at e)
      ]
