-- ===== src/Protocol.antt =====
-- packages/protocol/src: the wire format, its grammar and the text that is signed.
pub mod Types
pub mod Amount
pub mod Extensions
pub mod Canonical
pub mod Separation
pub mod Headers
pub mod Plain
pub mod RoundTrip
mod Tests
