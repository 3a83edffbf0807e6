-- ===== src/Verifier/Registry.antt =====
-- `VerifierRegistry` of packages/verifier/src/registry.ts: the schemes' verifiers by their names.
use v.Base.{Option, List, if◌then◌else◌}
use v.Base.Text.{Text}
use v.Base.Dict.{Dict, get, set, has, keys}

-- A conflict of names throws.
pub data Registered (V : Type 0) : Type 0 where
  registered : Dict V → Registered V
  conflict : (scheme : Text) → Registered V

module _ {V : Type 0} where
  unfoldable pub register : (scheme : Text) → V → Dict V → Registered V
  unfolding has set
  register scheme verifier m =
      if has scheme m then conflict scheme else registered (set scheme verifier m)

  unfoldable pub verifier_of : Text → Dict V → Option V
  unfolding get
  verifier_of scheme m = get scheme m

  unfoldable pub supported_schemes_of : Dict V → List Text
  unfolding keys
  supported_schemes_of m = keys m
