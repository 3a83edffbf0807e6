-- ===== src/Verifier.antt =====
-- packages/verifier/src: the prepaid-signature scheme.
pub mod Types
pub mod Checks
pub mod PrepaidSig
pub mod IdentityCache
pub mod Registry
pub mod Accepts
pub mod Passes
pub mod Forward
pub mod Payment
pub mod Settling
pub mod Agreement
pub mod Samples
mod Tests
