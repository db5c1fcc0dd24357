-- ===== src/Sync.antt =====
-- crates/idiolect-sync-server: pairing a phone and the bearer tokens it gets.
pub mod Tokens
pub mod Pairing
pub mod Clock
mod Examples
