-- ===== src/Intent.antt =====
-- pinelib/strategy: the tape of order and risk intents.
pub mod Contracts
pub mod Business
pub mod Same
pub mod Span
pub mod Tape
