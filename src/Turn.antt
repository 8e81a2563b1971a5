-- ===== src/Turn.antt =====
-- One turn of the assistant: crates/codex-runtime/src/runtime/turn_output.rs and turn_lifecycle.rs.
pub mod Output
pub mod Lifecycle
