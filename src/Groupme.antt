-- ===== src/Groupme.antt =====
-- The client of the GroupMe API, pkg/groupmeclient.
pub mod Types
pub mod Ids
pub mod Http
pub mod Groups
pub mod Messages
pub mod Relations
pub mod Wire
pub mod Tests
