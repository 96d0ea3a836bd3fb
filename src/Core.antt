-- ===== src/Core.antt =====
-- pinelib/core: values, series, bars and the bar-loop runtime.
pub mod Value
pub mod Series
pub mod Bar
pub mod Runtime
