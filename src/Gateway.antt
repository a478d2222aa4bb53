-- ===== src/Gateway.antt =====
-- souk_server/: the serving layer, one child for each part.
pub mod Wire
pub mod Core
pub mod Handshake
pub mod Query
pub mod Provider
pub mod Session
pub mod Kyok
pub mod Samples
mod Tests
