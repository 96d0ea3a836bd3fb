-- ===== src/Tests.antt =====
-- Runs on concrete inputs.
mod Data
mod Core
mod Runtime
mod Request
mod Intent
mod Recorders
mod Ta
mod Strategy
mod Backtest
