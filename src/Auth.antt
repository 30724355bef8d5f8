-- ===== src/Auth.antt =====
-- cmd/auth-service/main.go: the service that a proxy asks whether a request may pass.
pub mod Header
pub mod Verify
pub mod Decisions
pub mod Authorization
mod Examples
