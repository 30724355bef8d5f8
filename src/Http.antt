-- ===== src/Http.antt =====
-- pkg/response and the HTTP handlers of both services.
pub mod Response
pub mod OrderHandler
pub mod InventoryHandler
pub mod Pages
pub mod Listing
pub mod Examples
