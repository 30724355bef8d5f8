-- ===== src/Inventory.antt =====
-- The inventory service: internal/inventory.
pub mod Domain
pub mod Postgres
pub mod Reservations
pub mod Movements
pub mod Repository
pub mod Cache
pub mod UseCase
pub mod Safety
pub mod EventHandler
pub mod Reserving
pub mod Locking
pub mod Balance
pub mod RoundTrips
pub mod NoOversell
pub mod Consuming
mod ConsumingExamples
pub mod Fixtures
mod Examples
mod HandlerExamples
pub mod Handling
pub mod Releasing
pub mod Coherence
