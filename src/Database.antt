-- ===== src/Database.antt =====
-- The database connection with traces: pkg/tracing/db.go.
pub mod Traced
pub mod Sessions
