-- ===== src/Artifact.antt =====
-- Artifacts: crates/codex-runtime/src/domain/artifact/.
pub mod Patch
pub mod LockPolicy
