-- ===== src/Std.antt =====
-- The collections of Rust's standard library that the gateway uses.
pub mod HashMap
pub mod BTreeMap
pub mod Text
