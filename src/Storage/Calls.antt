-- ===== src/Storage/Calls.antt =====
-- What each call of `InMemoryStorage` does in a solvent storage.
pub mod Requests
pub mod Deposits
