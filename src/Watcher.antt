-- ===== src/Watcher.antt =====
-- packages/deposit-watcher/src: deposits found on the chain, or injected by an operator.
pub mod Types
pub mod Attribution
pub mod Scan
pub mod Poll
pub mod Simulated
pub mod Traced
pub mod History
pub mod Ticks
pub mod Follows
pub mod Depth
pub mod Marked
pub mod Carried
pub mod Minted
mod Tests
