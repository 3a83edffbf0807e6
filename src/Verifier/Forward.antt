-- ===== src/Verifier/Forward.antt =====
-- Checks that pass, one after the other, as runChecks of packages/verifier/src/prepaid-sig.ts strings
-- them.
use v.Base.{ℕ, ◌≡◌, ap, ◌∙◌, Bool, true}
use v.Protocol.Types.{Checked, valid, PaymentClaim}
use v.Protocol.Headers.{Parsed, parsed}
use v.Verifier.Types.{VerifyErrorCode, Details, Reply, accepted, RpcAnswer, answered}
use v.Verifier.Checks.{◌>>=◌, demand, header_verdict, signature_verdict, checked_or_fail}

pub canonical-then :
    {A B : Type 0} (r : Checked A) (code : VerifyErrorCode) (f : A → Reply B) {a : A} {b : Reply B}
    → r ≡ valid a
    → f a ≡ b
    → (checked_or_fail code r >>= f) ≡ b
canonical-then r code f e h = ap (λ q. checked_or_fail code q >>= f) e ∙ h

pub header-then :
    {B : Type 0} (r : Parsed PaymentClaim) (f : PaymentClaim → Reply B) {c : PaymentClaim}
    {b : Reply B}
    → r ≡ parsed c
    → f c ≡ b
    → (header_verdict r >>= f) ≡ b
header-then r f e h = ap (λ q. header_verdict q >>= f) e ∙ h

pub demand-then :
    {B : Type 0} (test : Bool) (n : ℕ) (code : VerifyErrorCode) (d : Details)
    (f : Unit {0} → Reply B) {b : Reply B}
    → test ≡ true
    → f tt ≡ b
    → (demand test n code d >>= f) ≡ b
demand-then test n code d f e h = ap (λ q. demand q n code d >>= f) e ∙ h

pub reply-then :
    {A B : Type 0} (r : Reply A) (f : A → Reply B) {a : A} {b : Reply B}
    → r ≡ accepted a
    → f a ≡ b
    → (r >>= f) ≡ b
reply-then r f e h = ap (λ q. q >>= f) e ∙ h

pub signature-then :
    {B : Type 0} (r : RpcAnswer Bool) (f : Unit {0} → Reply B) {b : Reply B}
    → r ≡ answered true
    → f tt ≡ b
    → (signature_verdict r >>= f) ≡ b
signature-then r f e h = ap (λ q. signature_verdict q >>= f) e ∙ h
