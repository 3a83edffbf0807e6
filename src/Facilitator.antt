-- ===== src/Facilitator.antt =====
-- packages/facilitator/src: the background services.
pub mod Reconciliation
pub mod Maintenance
pub mod Ledger
pub mod Balance
pub mod Payments
mod Tests
