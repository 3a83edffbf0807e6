-- ===== src/Storage/Refine.antt =====
-- The refinement: in a solvent storage every operation of `InMemoryStorage`
-- (packages/storage/src/memory.ts) is a run of steps of the abstract view, and its checks pass.
mod Defs
pub mod Requests
pub mod Deposits
pub use Defs.{Refines, Completes, Completes-Steps}
