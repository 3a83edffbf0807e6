-- ===== src/Verifier/Accepts.antt =====
-- The body of a 402 answer: packages/verifier/src/accepts.ts. A registered verifier is read for its
-- versions only; the entry's fields are those of `PaymentRequirement`.
use v.Base.{Option, none, some, List, [], ◌∷◌}
use v.Base.Text.{Text, codes}
use v.Base.Dict.{Dict}
use v.Protocol.Types.{PaymentRequirement}
use v.Verifier.Types.{RoutePolicy, VerifyError}
use v.Verifier.Registry.{verifier_of, supported_schemes_of}

pub record PaymentAdvertisement : Type 0 where
  pub canonical_domain : Text
  pub network : Text
  pub asset : Text
  pub pay_to : Text
  pub facilitator_url : Text

pub record Payment402Body : Type 0 where
  pub error : Option VerifyError
  pub accepts : List PaymentRequirement

-- `registry.get(scheme)?.schemeVersions[0] ?? "0.1"`
abbrev pub first_version : Option (List Text) → Text
first_version none = codes "0.1"
first_version (some []) = codes "0.1"
first_version (some (version ∷ _)) = version

module _ (advertisement : PaymentAdvertisement) (registry : Dict (List Text))
    (route : RoutePolicy) where
  unfoldable pub accepts_entry : Text → PaymentRequirement
  unfolding verifier_of
  accepts_entry scheme = record {
    scheme = scheme;
    scheme_version = first_version (verifier_of scheme registry);
    network = advertisement.network;
    asset = advertisement.asset;
    amount = route.price_human;
    pay_to = advertisement.pay_to;
    canonical_domain = advertisement.canonical_domain;
  }

  unfoldable pub accepts_entries : List Text → List PaymentRequirement
  unfolding accepts_entry
  accepts_entries [] = []
  accepts_entries (scheme ∷ schemes) = accepts_entry scheme ∷ accepts_entries schemes

  unfoldable pub build_402_body : Option VerifyError → Payment402Body
  unfolding accepts_entries supported_schemes_of
  build_402_body error = record {
    error = error;
    accepts = accepts_entries (supported_schemes_of registry);
  }
