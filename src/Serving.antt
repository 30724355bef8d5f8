-- ===== src/Serving.antt =====
-- The HTTP servers around the handlers: pkg/metrics/middleware.go, pkg/tracing/middleware.go and the
-- routes of cmd/*/main.go.
pub mod Writer
pub mod Middleware
pub mod Transparency
pub mod Responses
mod Examples
