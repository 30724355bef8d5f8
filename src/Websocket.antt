-- ===== src/Websocket.antt =====
-- pkg/websocket and internal/websocket.
pub mod Hub
pub mod Client
pub mod Subscriber
pub mod Listening
pub mod Handler
pub mod Upgrading
pub mod Delivery
pub mod Safety
pub mod Dropped
pub mod Examples
