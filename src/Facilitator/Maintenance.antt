-- ===== src/Facilitator/Maintenance.antt =====
-- The reaper and the cleanup of packages/facilitator/src/maintenance/maintenance.service.ts at a
-- clock's reading; the logs, the gauges and the cron jobs that call them are left out. A cutoff below
-- 0 lets the same rows through as 0.
pub mod Horizon
use v.Base.{ℕ, ◌*◌, ◌-◌, List, if◌then◌else◌, ltb}
use v.Base.Text.{Text}
use v.Storage.State.{Storage, Result}
use v.Storage.Requests.{reap_expired_reservations, cleanup_spent_requests}

-- The part of the configuration that the service reads.
pub record PaymentConfig : Type 0 where
  pub reserve_ttl_sec : ℕ
  pub timestamp_tolerance_sec : ℕ

abbrev pub max : ℕ → ℕ → ℕ
max a b = if ltb a b then b else a

unfoldable pub cleanup_horizon_sec : PaymentConfig → ℕ
cleanup_horizon_sec config = max 600 (2 * max config.reserve_ttl_sec config.timestamp_tolerance_sec)

unfoldable pub run_reaper : PaymentConfig → (now : ℕ) → Storage → Result (List Text) × Storage
run_reaper config now s = reap_expired_reservations (now - config.reserve_ttl_sec) now s

unfoldable pub run_cleanup : PaymentConfig → (now : ℕ) → Storage → Result ℕ × Storage
unfolding cleanup_horizon_sec
run_cleanup config now s = cleanup_spent_requests (now - cleanup_horizon_sec config) s
