-- ===== src/Connector.antt =====
-- The bridge's side of pkg/connector: portal identifiers, conversion of messages, remote events.
pub mod Portal
pub mod Convert
pub mod Events
pub mod Handlers
pub mod Api
pub mod Dispatch
pub mod Connect
pub mod Login
mod Tests
