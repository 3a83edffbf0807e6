-- ===== src/Facilitator/Maintenance/Horizon.antt =====
-- The horizon of the cleanup against the verifier's window and the reaper
-- (packages/facilitator/src/maintenance/maintenance.service.ts).
use v.Base.{
  ℕ, ◌+◌, ◌-◌, ◌≤◌, ◌<◌, ◌≡◌, ◌≢◌, sym, ◌∙◌, true, false, none, some, [], ◌∷◌, inl, inr, arith, ltb,
  leb, ltb→lt, Bool-cases,
}
use v.Base.Text.{Text, text_eq}
use v.Base.Dict.{Dict, get}
use v.Protocol.Types.{PaymentClaim}
use v.Protocol.Headers.{parsed, parse_payment_headers}
use v.Storage.Types.{IdentityRecord, LedgerReason, SpentRequestStatus, SpentRequestRecord}
use v.Storage.State.{Storage, ok}
use v.Storage.Requests.{cleanup_rows, cleanup_spent_requests, reap_one}
use v.Storage.Step.Solvent.{Solvent}
use v.Storage.Calls.Requests.{refunded, reap_one-refunds}
use v.Verifier.Types.{
  IncomingPaymentRequest, RoutePolicy, accepted, Reserved, PrepaidSigVerifierConfig, Environment,
}
use v.Verifier.Checks.{is_out_of_window}
use v.Verifier.PrepaidSig.{verify_and_reserve}
use v.Verifier.Payment.{accepted-Passes}
use v.Facilitator.Maintenance.{PaymentConfig, cleanup_horizon_sec, run_cleanup}

-- A row that the loop drops was issued before the cutoff.
dropped-old :
    (cutoff : ℕ) (k : Text) (m : Dict SpentRequestRecord) (row : SpentRequestRecord)
    → get k m ≡ some row
    → get k (cleanup_rows cutoff m).0 ≡ none
    → ltb row.issued_at cutoff ≡ true
unfolding cleanup_rows get
dropped-old cutoff k [] row found gone = absurd (cc found)
dropped-old cutoff k ((j, r) ∷ m) row found gone = elim (Bool-cases (text_eq j k)) [
  | inl same ↦
      let this : r ≡ row = cc (rw same at found) in
      elim (Bool-cases (ltb r.issued_at cutoff)) [
        | inl old ↦ rw (← this) old
        | inr young ↦ absurd (cc (rw same at (rw young at gone)))
      ]
  | inr other ↦ elim (Bool-cases (ltb r.issued_at cutoff)) [
    | inl old ↦ dropped-old cutoff k m row (rw other at found) (rw old at gone)
    | inr young ↦ dropped-old cutoff k m row (rw other at found) (rw other at (rw young at gone))
  ]
]

purged-old :
    (config : PaymentConfig) (now : ℕ) (s : Storage) (k : Text) (row : SpentRequestRecord)
    → get k s.spent_requests ≡ some row
    → get k (run_cleanup config now s).1.spent_requests ≡ none
    → row.issued_at + cleanup_horizon_sec config < now
unfolding run_cleanup cleanup_spent_requests
purged-old config now s k row found gone =
    let old =
      ltb→lt row.issued_at (now - cleanup_horizon_sec config)
        (dropped-old (now - cleanup_horizon_sec config) k s.spent_requests row found gone) in
    omega (arith, old)

horizon-tolerance :
    (config : PaymentConfig) → config.timestamp_tolerance_sec ≤ cleanup_horizon_sec config
unfolding cleanup_horizon_sec
horizon-tolerance config = ground arith

horizon-ttl :
    (config : PaymentConfig)
    → config.reserve_ttl_sec + config.timestamp_tolerance_sec ≤ cleanup_horizon_sec config
unfolding cleanup_horizon_sec
horizon-ttl config = ground arith

late_out :
    (now later issued_at tolerance horizon : ℕ)
    → issued_at + horizon < now
    → now ≤ later
    → tolerance ≤ horizon
    → is_out_of_window later issued_at tolerance ≡ true
late_out now later issued_at tolerance horizon h1 h2 h3 = ground arith

parsed_inj : {c d : PaymentClaim} → parsed c ≡ parsed d → c ≡ d
parsed_inj e = cc

-- Once the cleanup has dropped a request's row, no request with that row's issue time is accepted
-- any more, at that time or later, when the verifier's tolerance is the configured one: the same
-- signed request cannot be paid with twice.
pub purged_never_accepted :
    (config : PaymentConfig) (now : ℕ) (s : Storage) (k : Text) (row : SpentRequestRecord)
    → get k s.spent_requests ≡ some row
    → get k (run_cleanup config now s).1.spent_requests ≡ none
    → {State : Type 0} (env : Environment State) (scheme : PrepaidSigVerifierConfig)
    → scheme.timestamp_tolerance_sec ≡ config.timestamp_tolerance_sec
    → (request : IncomingPaymentRequest) (policy : RoutePolicy) (claim : PaymentClaim)
    → parse_payment_headers env.lower request.headers ≡ parsed claim
    → claim.issued_at ≡ row.issued_at
    → (later : ℕ) → now ≤ later
    → (before meanwhile : Storage → Storage) (t : Storage) (r : Reserved)
    → (verify_and_reserve env scheme request policy later before meanwhile t).0 ≢ accepted r
purged_never_accepted config now s k row found gone env scheme tolerance request policy claim heads
      issued later order before meanwhile t r e =
    let (checked, (headers, _, _, _, inside, _, _, _, _)) =
      accepted-Passes env scheme request policy later before meanwhile t r e in
    let same : checked.claim ≡ claim = parsed_inj (sym headers ∙ heads) in
    let late =
      late_out now later row.issued_at config.timestamp_tolerance_sec (cleanup_horizon_sec config)
        (purged-old config now s k row found gone) order (horizon-tolerance config) in
    cc (rw (same, issued, tolerance) at inside)

old_enough :
    (now issued_at received_at ttl tolerance horizon : ℕ)
    → issued_at + horizon < now
    → ttl + tolerance ≤ horizon
    → is_out_of_window received_at issued_at tolerance ≡ false
    → leb (now - ttl) received_at ≡ false
old_enough now issued_at received_at ttl tolerance horizon h1 h2 h3 = ground arith

-- In a solvent storage, a reserved row of a known identity that was received inside the window,
-- and that the cleanup would drop, is old enough for the reaper: its round for that row, at the
-- same time, refunds the amount.
pub purged_is_reaped_first :
    (config : PaymentConfig) (now : ℕ) (s : Storage) (k : Text) (row : SpentRequestRecord)
    (i : IdentityRecord)
    → Solvent s
    → get k s.spent_requests ≡ some row
    → row.status ≡ SpentRequestStatus.reserved
    → get row.identity_id s.identities ≡ some i
    → is_out_of_window row.received_at row.issued_at config.timestamp_tolerance_sec ≡ false
    → get k (run_cleanup config now s).1.spent_requests ≡ none
    → reap_one (now - config.reserve_ttl_sec) now k s
      ≡ (ok (row.request_id ∷ []), refunded LedgerReason.reaper_expired now k row i s)
purged_is_reaped_first config now s k row i h found status known inside gone =
    reap_one-refunds s h (now - config.reserve_ttl_sec) now k row i found status
      (old_enough now row.issued_at row.received_at config.reserve_ttl_sec
        config.timestamp_tolerance_sec (cleanup_horizon_sec config)
        (purged-old config now s k row found gone) (horizon-ttl config) inside)
      known
