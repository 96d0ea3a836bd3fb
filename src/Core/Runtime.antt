-- ===== src/Core/Runtime.antt =====
-- pinelib/core/runtime.py: the state of the bar loop, its registry of series, the life of a bar,
-- and checkpoints.
pub mod State
pub mod Registry
pub mod Lifecycle
pub mod Realtime
