-- ===== src/Faye.antt =====
-- The Faye (Bayeux) client of pkg/faye.
pub mod Message
pub mod Logging
pub mod Transport
pub mod Client
pub mod Connect
pub mod Subscribe
pub mod Handshake
pub mod Polling
pub mod Tasks
pub mod Tests
