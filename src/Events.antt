-- ===== src/Events.antt =====
-- The events between the services: what encoding/json makes of them, and how each side reads the other's.
pub mod Json
pub mod Inventory
pub mod Order
pub mod Socket
pub mod Reading
pub mod Envelopes
pub mod Flat
mod Examples
