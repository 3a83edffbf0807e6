-- ===== src/Watcher/Ticks.antt =====
-- What a poll of the watcher leaves behind (packages/deposit-watcher/src/real-watcher.ts).
use v.Base.Text.{Text}
use v.Storage.State.{Storage}
use v.Storage.Step.Solvent.{Solvent}
