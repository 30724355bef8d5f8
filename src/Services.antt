-- ===== src/Services.antt =====
-- The services of cmd from their start to their end.
pub mod Process
pub mod Parts
pub mod Mains
pub mod Monitor
pub mod Stopping
mod Examples
