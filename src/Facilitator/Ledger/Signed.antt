-- ===== src/Facilitator/Ledger/Signed.antt =====
-- What the checks of a signed query ask of its headers, written out: the guards of
-- packages/facilitator/src/api/ledger.controller.ts and balance.controller.ts.
use v.Base.{
  ℕ, ◌≡◌, ◌≤◌, ◌⊎◌, refl, Bool, true, false, not, Option, none, some, inl, inr, arith, leb, ◌&&◌,
  ◌+◌, Bool-cases, Option-cases,
}
use mathlib.Core.Path.{subst}
use v.Base.Int.{ℤ, pos, negsuc}
use v.Base.Text.{Text, codes}
use v.Base.Dict.{get}
use v.Base.Decimal.{read_digits}
use v.Protocol.Types.{Checked, valid, invalid, BalanceQueryPayload}
use v.Protocol.Amount.{is_plain_integer, is_base64_signature}
use v.Protocol.Canonical.{is_valid_ulid, canonicalize_ledger_query}
use v.Protocol.Headers.{Headers, HeaderValue, one, many, is_identity, normalize_identity_key}
use v.Verifier.Types.{RpcAnswer, answered, unavailable, app_error}
use v.Verifier.Checks.{is_out_of_window}
use v.Facilitator.Ledger.{
  Answer, answer, rejected, protocol_error, storage_error, LedgerErrorCode, ◌>>=◌, insist,
  single_or_reject, text_or_throw, signature_or_reject, after_id_of, limit_of, limit_in_range,
  LedgerConfig, LedgerQuery, QueryHeaders, query_payload, read_query_headers, verify_query,
  check_query_request,
}

abbrev HasHeader : Text → Headers → Text → Type 0
HasHeader name headers value = get name headers ≡ some (some (one value))

-- The headers name an identity, a request id and a time within the tolerance of the server's, and
-- carry a signature that the node accepts, for the identity's current keys, of the text that the server
-- builds from them and its own configuration.
pub record IsSigned (canonicalize : BalanceQueryPayload → Checked Text) (lower trim : Text → Text)
    (verify_message : Text → Text → Text → Bool → RpcAnswer Bool) (config : LedgerConfig)
    (headers : Headers) (now : ℕ) (identity_key query_id : Text) (issued_at : ℕ) : Type 0 where
  pub payer : Text
  pub issued_at_raw : Text
  pub signature : Text
  pub canonical : Text
  pub names_payer : HasHeader (codes "x-v402-payer") headers payer
  pub names_query : HasHeader (codes "x-v402-request-id") headers query_id
  pub names_time : HasHeader (codes "x-v402-issued-at") headers issued_at_raw
  pub names_signature : HasHeader (codes "x-v402-signature") headers signature
  pub payer_is_identity : is_identity payer ≡ true
  pub query_is_ulid : is_valid_ulid query_id ≡ true
  pub time_is_integer : is_plain_integer issued_at_raw ≡ true
  pub signature_is_base64 : is_base64_signature signature ≡ true
  pub time_is_read : issued_at ≡ read_digits 0 issued_at_raw
  pub not_too_old : now ≤ issued_at + config.tolerance
  pub not_ahead : issued_at ≤ now + config.tolerance
  pub has_text :
      canonicalize (record {
        canonical_domain = config.canonical_domain;
        network = config.chain;
        payer = payer;
        request_id = query_id;
        issued_at = issued_at;
      })
      ≡ valid canonical
  pub is_verified : verify_message payer signature canonical true ≡ answered true
  pub is_key : identity_key ≡ normalize_identity_key lower trim payer

-- The page's parameters, `afterId` and `limit`, as given or by default.
abbrev pub IsAfter : (Text → Option ℤ) → Option Text → Option ℕ → Type 0
IsAfter number after_raw after_id =
    ((after_raw ≡ none) × (after_id ≡ none))
    ⊎ ((raw : Text) × (n : ℕ) × (after_raw ≡ some raw)
        × (number raw ≡ some (pos n))
        × (after_id ≡ some n))

abbrev pub IsLimit : (Text → Option ℤ) → Option Text → ℕ → Type 0
IsLimit number limit_raw limit =
    (((limit_raw ≡ none) × (limit ≡ 50))
      ⊎ ((raw : Text) × (limit_raw ≡ some raw) × (number raw ≡ some (pos limit))))
    × (1 ≤ limit)
    × (limit ≤ 100)

pub answer_inj : {A : Type 0} {a b : A} → answer a ≡ answer b → a ≡ b
answer_inj e = cc

pub bind_inv :
    {A B : Type 0} (m : Answer A) (f : A → Answer B) {b : B}
    → (m >>= f) ≡ answer b
    → (a : A) × (m ≡ answer a) × (f a ≡ answer b)
bind_inv (answer a) f e = (a, refl, e)
bind_inv (rejected n code) f e = absurd (cc e)
bind_inv (protocol_error code) f e = absurd (cc e)
bind_inv (storage_error t) f e = absurd (cc e)

insist_inv :
    {B : Type 0} (test : Bool) (n : ℕ) (code : LedgerErrorCode) (f : Unit {0} → Answer B) {b : B}
    → (insist test n code >>= f) ≡ answer b
    → (test ≡ true) × (f tt ≡ answer b)
insist_inv true n code f e = (refl, e)
insist_inv false n code f e = absurd (cc e)

single_inv :
    {B : Type 0} (o : Option (Option HeaderValue)) (f : Text → Answer B) {b : B}
    → (single_or_reject o >>= f) ≡ answer b
    → (value : Text) × (o ≡ some (some (one value))) × (f value ≡ answer b)
single_inv (some (some (one value))) f e = (value, refl, e)
single_inv (some (some (many values))) f e = absurd (cc e)
single_inv (some none) f e = absurd (cc e)
single_inv none f e = absurd (cc e)

text_inv :
    {B : Type 0} (c : Checked Text) (f : Text → Answer B) {b : B}
    → (text_or_throw c >>= f) ≡ answer b
    → (text : Text) × (c ≡ valid text) × (f text ≡ answer b)
text_inv (valid text) f e = (text, refl, e)
text_inv (invalid code) f e = absurd (cc e)

signature_verified : (r : RpcAnswer Bool) → signature_or_reject r ≡ answer tt → r ≡ answered true
signature_verified (answered true) e = refl
signature_verified (answered false) e = absurd (cc e)
signature_verified unavailable e = absurd (cc e)
signature_verified app_error e = absurd (cc e)

in_window :
    (now issued_at tolerance : ℕ)
    → not (is_out_of_window now issued_at tolerance) ≡ true
    → (now ≤ issued_at + tolerance) × (issued_at ≤ now + tolerance)
in_window now issued_at tolerance h = (ground arith, ground arith)

limit_in_range_inv :
    {B : Type 0} (n : ℕ) (f : ℕ → Answer B) {b : B}
    → (limit_in_range n >>= f) ≡ answer b
    → (1 ≤ n) × (n ≤ 100) × (f n ≡ answer b)
limit_in_range_inv n f e = elim (Bool-cases (leb 1 n && leb n 100)) [
  | inl within ↦ (ground arith, ground arith, rw within at e)
  | inr outside ↦ absurd (cc (rw outside at e))
]

after_id_of-IsAfter :
    {B : Type 0} (number : Text → Option ℤ) (raw : Option Text) (f : Option ℕ → Answer B) {b : B}
    → (after_id_of number raw >>= f) ≡ answer b
    → (after_id : Option ℕ) × IsAfter number raw after_id × (f after_id ≡ answer b)
after_id_of-IsAfter number none f e = (none, inl (refl, refl), e)
after_id_of-IsAfter number (some raw) f e = elim (Option-cases (number raw)) [
  | inr (pos n, found) ↦
      (some n, inr (raw, n, refl, found, refl), rw (found, after_id_of, ◌>>=◌) at e)
  | inr (negsuc n, found) ↦ absurd (cc (rw (found, after_id_of, ◌>>=◌) at e))
  | inl missing ↦ absurd (cc (rw (missing, after_id_of, ◌>>=◌) at e))
]

limit_of-IsLimit :
    {B : Type 0} (number : Text → Option ℤ) (raw : Option Text) (f : ℕ → Answer B) {b : B}
    → (limit_of number raw >>= f) ≡ answer b
    → (limit : ℕ) × IsLimit number raw limit × (f limit ≡ answer b)
limit_of-IsLimit number none f e = (50, (inl (refl, refl), omega arith, omega arith), e)
limit_of-IsLimit number (some raw) f e = elim (Option-cases (number raw)) [
  | inr (pos n, found) ↦
      let (low, high, rest) = limit_in_range_inv n f (rw (found, limit_of, ◌>>=◌) at e) in
      (n, (inr (raw, refl, found), low, high), rest)
  | inr (negsuc n, found) ↦ absurd (cc (rw (found, limit_of, ◌>>=◌) at e))
  | inl missing ↦ absurd (cc (rw (missing, limit_of, ◌>>=◌) at e))
]

-- What the headers that were read are.
pub record HasHeaders (headers : Headers) (h : QueryHeaders) : Type 0 where
  pub names_payer : HasHeader (codes "x-v402-payer") headers h.payer
  pub names_query : HasHeader (codes "x-v402-request-id") headers h.request_id
  pub names_time : HasHeader (codes "x-v402-issued-at") headers h.issued_at_raw
  pub names_signature : HasHeader (codes "x-v402-signature") headers h.signature
  pub payer_is_identity : is_identity h.payer ≡ true
  pub query_is_ulid : is_valid_ulid h.request_id ≡ true
  pub time_is_integer : is_plain_integer h.issued_at_raw ≡ true
  pub signature_is_base64 : is_base64_signature h.signature ≡ true

pub read_query_headers-HasHeaders :
    (headers : Headers) (h : QueryHeaders)
    → read_query_headers headers ≡ answer h
    → HasHeaders headers h
unfolding read_query_headers
read_query_headers-HasHeaders headers h e =
    let (payer, e1, r1) = single_inv (get (codes "x-v402-payer") headers) _ e in
    let (query_id, e2, r2) = single_inv (get (codes "x-v402-request-id") headers) _ r1 in
    let (issued_raw, e3, r3) = single_inv (get (codes "x-v402-issued-at") headers) _ r2 in
    let (signature, e4, r4) = single_inv (get (codes "x-v402-signature") headers) _ r3 in
    let (e5, r5) = insist_inv (is_identity payer) _ _ _ r4 in
    let (e6, r6) = insist_inv (is_valid_ulid query_id) _ _ _ r5 in
    let (e7, r7) = insist_inv (is_plain_integer issued_raw) _ _ _ r6 in
    let (e8, r8) = insist_inv (is_base64_signature signature) _ _ _ r7 in
    subst (HasHeaders headers) (answer_inj r8) (record {
      names_payer = e1;
      names_query = e2;
      names_time = e3;
      names_signature = e4;
      payer_is_identity = e5;
      query_is_ulid = e6;
      time_is_integer = e7;
      signature_is_base64 = e8;
    })

module _ (lower trim : Text → Text) (verify_message : Text → Text → Text → Bool → RpcAnswer Bool)
    (config : LedgerConfig) (headers : Headers) (now : ℕ) where
  pub verified-IsSigned :
      (canonicalize : BalanceQueryPayload → Checked Text) (h : QueryHeaders)
      → read_query_headers headers ≡ answer h
      → verify_query verify_message config canonicalize h now ≡ answer tt
      → IsSigned canonicalize lower trim verify_message config headers now
          (normalize_identity_key lower trim h.payer)
          h.request_id
          (read_digits 0 h.issued_at_raw)
  unfolding verify_query
  verified-IsSigned canonicalize h read e =
      let has = read_query_headers-HasHeaders headers h read in
      let issued_at = read_digits 0 h.issued_at_raw in
      let (e1, r1) = insist_inv (not (is_out_of_window now issued_at config.tolerance)) _ _ _ e in
      let (low, high) = in_window now issued_at config.tolerance e1 in
      let (canonical, e2, r2) = text_inv (canonicalize (query_payload config h)) _ r1 in
      let e3 = signature_verified (verify_message h.payer h.signature canonical true) r2 in
      record {
        payer = h.payer;
        issued_at_raw = h.issued_at_raw;
        signature = h.signature;
        canonical = canonical;
        names_payer = has.names_payer;
        names_query = has.names_query;
        names_time = has.names_time;
        names_signature = has.names_signature;
        payer_is_identity = has.payer_is_identity;
        query_is_ulid = has.query_is_ulid;
        time_is_integer = has.time_is_integer;
        signature_is_base64 = has.signature_is_base64;
        time_is_read = refl;
        not_too_old = low;
        not_ahead = high;
        has_text = e2;
        is_verified = e3;
        is_key = refl;
      }

module _ (lower trim : Text → Text) (number : Text → Option ℤ)
    (verify_message : Text → Text → Text → Bool → RpcAnswer Bool) (config : LedgerConfig)
    (headers : Headers) (now : ℕ) where
  -- What an accepted query of a statement has passed.
  abbrev pub IsLedgerQuery : (after_raw limit_raw : Option Text) → LedgerQuery → Type 0
  IsLedgerQuery after_raw limit_raw q =
      IsSigned canonicalize_ledger_query lower trim verify_message config headers now q.identity_key
        q.query_id q.query_issued_at
      × IsAfter number after_raw q.after_id
      × IsLimit number limit_raw q.limit

  pub check_query_request-IsLedgerQuery :
      (after_raw limit_raw : Option Text) (q : LedgerQuery)
      → check_query_request lower trim number verify_message config headers after_raw limit_raw now
        ≡ answer q
      → IsLedgerQuery after_raw limit_raw q
  unfolding check_query_request
  check_query_request-IsLedgerQuery after_raw limit_raw q e =
      let (h, e1, r1) = bind_inv (read_query_headers headers) _ e in
      let (after_id, e2, r2) = after_id_of-IsAfter number after_raw _ r1 in
      let (limit, e3, r3) = limit_of-IsLimit number limit_raw _ r2 in
      let (unit, e4, r4) =
        bind_inv (verify_query verify_message config canonicalize_ledger_query h now) _ r3 in
      subst (IsLedgerQuery after_raw limit_raw) (answer_inj r4) (
        verified-IsSigned lower trim verify_message config headers now canonicalize_ledger_query h
            e1 e4,
        e2,
        e3,
      )
