-- ===== src/Request.antt =====
-- pinelib/request: merging a requested timeframe into the chart, selecting intrabars, and the
-- in-memory provider.
pub mod Merge
pub mod Intrabar
pub mod Provider
