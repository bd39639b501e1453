-- ===== src/DaemonClient.antt =====
-- library/src/monerod_client: what the client of the daemon computes beside its requests.
pub mod Header
pub mod Parts
pub mod Challenge
pub mod Digest
pub mod Request
pub mod Rpc
