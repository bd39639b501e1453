-- ===== src/Scanner.antt =====
-- library/src/scanner.rs: the scanner, which finds transfers and updates the invoices.
pub mod Update
pub mod Caches
pub mod Burning
pub mod Scan
pub mod Pass
