-- ===== src/Tests.antt =====
-- Concrete inputs for the theorems: invoices, chains and subscribers of a small gateway.
mod Invoices
mod Updates
mod Publishing
mod Blocks
mod Stores
mod Pool
mod Subaddresses
mod Shop
mod Passes
mod Gateways
mod Managers
mod Codec
mod Servers
mod Requests
mod Apis
mod Configs
mod DaemonClients
mod Rpc
mod Sleds
