-- ===== src/Server.antt =====
-- server/src: the server around the gateway.
pub mod InvoiceIds
pub mod Callbacks
pub mod Updates
pub mod Responses
pub mod Api
pub mod Auth
pub mod Settings
pub mod Config
