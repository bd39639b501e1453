-- ===== src/Caching.antt =====
-- library/src/caching: the caches that the scanner and the gateway keep.
pub mod BlockCache
pub mod TxpoolCache
pub mod SubaddressCache
