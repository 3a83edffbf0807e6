-- ===== src/Facilitator/Payments/Scheme.antt =====
-- Which scheme the body of a payment call names (`schemeFromHeaders` and `verifierFor` of
-- packages/facilitator/src/api/payments.controller.ts).
use v.Base.{◌≡◌, refl, true, [], ◌∷◌, inl, inr, sym, Option, none, some, ◌⊎◌}
use v.Base.Text.{Text, text_eq, codes, text_eq_iff}
use v.Base.Dict.{get}
use v.Protocol.Types.{scheme_verus_prepaid_sig}
use v.Protocol.Headers.{parse_scheme_header, HeaderValue, one, many}
use v.Facilitator.Payments.{
  first_value, first_spelling, PaymentRequestBody, scheme_from_headers, or_default_scheme,
}

abbrev pub name_of : Text → PaymentRequestBody → Text
name_of default_scheme body =
    (parse_scheme_header (or_default_scheme default_scheme (scheme_from_headers body.headers))).0

-- The first value of a header, where it has one.
abbrev pub value_or : Text → HeaderValue → Text
value_or default (one value) = value
value_or default (many []) = default
value_or default (many (value ∷ _)) = value

abbrev IsMissing : Option (Option HeaderValue) → Type 0
IsMissing o = (o ≡ none) ⊎ (o ≡ some none)

-- The scheme's name that a body gives: in the header of lower case, else in the capitalised one, else
-- by default.
abbrev pub GivesScheme : (default : Text) → (low high : Option (Option HeaderValue)) → Text → Type 0
GivesScheme default low high value =
    ((v : HeaderValue) × (low ≡ some (some v)) × (value ≡ value_or default v))
    ⊎ (IsMissing low × ((v : HeaderValue) × (high ≡ some (some v)) × (value ≡ value_or default v)))
    ⊎ (IsMissing low × IsMissing high × (value ≡ default))

value_or-first :
    (default : Text) (v : HeaderValue)
    → or_default_scheme default (first_value (some (some v))) ≡ value_or default v
value_or-first default (one value) = refl
value_or-first default (many []) = refl
value_or-first default (many (value ∷ _)) = refl

given-else :
    (default : Text) (low high : Option (Option HeaderValue))
    → IsMissing low
    → GivesScheme default low high (or_default_scheme default (first_value high))
given-else default low none h = inr (inr (h, inl refl, refl))
given-else default low (some none) h = inr (inr (h, inr refl, refl))
given-else default low (some (some v)) h = inr (inl (h, (v, refl, value_or-first default v)))

given :
    (default : Text) (low high : Option (Option HeaderValue))
    → GivesScheme default low high
        (or_default_scheme default (first_value (first_spelling low high)))
given default (some (some v)) high = inl (v, refl, value_or-first default v)
given default none high = given-else default none high (inl refl)
given default (some none) high = given-else default (some none) high (inr refl)

-- The body's scheme is the prepaid signature.
abbrev pub NamesPrepaid : Text → PaymentRequestBody → Type 0
NamesPrepaid default_scheme body =
    (value : Text) × GivesScheme default_scheme (get (codes "x-v402-scheme") body.headers)
      (get (codes "X-V402-Scheme") body.headers) value
    × ((parse_scheme_header value).0 ≡ scheme_verus_prepaid_sig)

pub named-NamesPrepaid :
    (default_scheme : Text) (body : PaymentRequestBody)
    → text_eq scheme_verus_prepaid_sig (name_of default_scheme body) ≡ true
    → NamesPrepaid default_scheme body
unfolding scheme_from_headers
named-NamesPrepaid default_scheme body e = (
  or_default_scheme default_scheme (scheme_from_headers body.headers),
  given default_scheme (get (codes "x-v402-scheme") body.headers)
      (get (codes "X-V402-Scheme") body.headers),
  sym ((text_eq_iff scheme_verus_prepaid_sig (name_of default_scheme body)).0 e),
)
