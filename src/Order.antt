-- ===== src/Order.antt =====
-- The order service: internal/order.
pub mod Domain
pub mod Postgres
pub mod Items
pub mod Outbox
pub mod Repository
pub mod Cache
pub mod UseCase
pub mod Publisher
pub mod EventHandler
pub mod Invariants
pub mod Keys
pub mod Moves
pub mod Following
pub mod History
mod HistoryExamples
pub mod Atomic
pub mod Lifecycle
pub mod Claiming
pub mod RoundTrips
pub mod Staleness
pub mod Fixtures
mod Examples
mod OutboxExamples
pub mod Publishing
pub mod Marking
pub mod Announcing
pub mod Sorting
pub mod Race
pub mod Storing
pub mod Committing
pub mod Placing
pub mod Placed
mod PlacingExamples
mod PublisherExamples
