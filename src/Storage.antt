-- ===== src/Storage.antt =====
-- packages/storage/src: the storage interface and its in-memory implementation.
pub mod Types
pub mod State
pub mod Requests
pub mod Deposits
pub mod Records
pub mod Solvency
pub mod Step
pub mod Calls
pub mod Refine
pub mod History
pub mod Replay
mod Tests
