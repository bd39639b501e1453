-- ===== src/Storage.antt =====
-- library/src/storage: the stores of the gateway.
pub mod OutputKeys
pub mod Traits
pub mod Lowest
pub mod Manager
pub mod InMemory
pub mod Sled
