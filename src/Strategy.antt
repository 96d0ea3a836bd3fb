-- ===== src/Strategy.antt =====
-- pinelib/strategy: the strategy that generated code drives, its orders and its ledger view.
pub mod Models
pub mod Ledger
pub mod Context
pub mod Orders
pub mod Risk
pub mod Attach
pub mod Calls
