-- ===== src/Web.antt =====
-- The web adapter: crates/codex-runtime/src/adapters/web/. `Types` has the data of types.rs,
-- `Registry` the session registry of state.rs, `Wire` the payloads of wire.rs, and `Handlers` the
-- request handlers of handlers.rs and service.rs.
pub mod Types
pub mod Registry
pub mod Approvals
pub mod Sessions
