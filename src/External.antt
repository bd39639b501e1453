-- ===== src/External.antt =====
-- The third-party crates that the gateway rests on, as interfaces with their documented behaviour.
pub mod IndexMap
pub mod Channel
pub mod Monero
