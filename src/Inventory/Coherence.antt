-- ===== src/Inventory/Coherence.antt =====
-- The cache of internal/inventory/adapter/cache/inventory_repo.go as an implementation of the
-- repository: what it answers is what PostgreSQL would.
pub mod Keys
pub mod Rows
pub mod Entries
pub mod Tables
pub mod Reads
pub mod Writes
pub mod Steps
pub mod Calls
pub mod Refinement
mod Examples
