-- ===== src/Streaming.antt =====
-- crates/idiolect-application/src/use_cases/streaming.rs: the orchestration of one live take.
pub mod Decisions
pub mod Take
mod Examples
