-- ===== src/Ime.antt =====
-- crates/idiolect-adapters/desktop/ibus: the input-method engine's pure state machine.
pub mod Review
pub mod Session
pub mod Reader
mod Examples
