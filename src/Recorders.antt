-- ===== src/Recorders.antt =====
-- The recorders that a script's visual and plot calls write to.
pub mod Visual
pub mod Plot
