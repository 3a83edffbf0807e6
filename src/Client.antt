-- ===== src/Client.antt =====
-- packages/client-fetch/src: the paying side of the 402 handshake.
pub mod Ulid
pub mod AcceptsCache
pub mod Types
pub mod Handshake
pub mod Claim
pub mod Honest
pub mod Orderly
pub mod Limits
mod Tests
