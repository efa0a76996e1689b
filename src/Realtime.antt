-- ===== src/Realtime.antt =====
-- GroupMe's real-time messages, pkg/groupmerealtime.
pub mod Calls
pub mod Loop
pub mod Decoded
pub mod Push
pub mod Setup
pub mod Tests
