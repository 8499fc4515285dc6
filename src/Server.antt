-- ===== src/Server.antt =====
-- The crate quote-server.
pub mod Channel
pub mod Hub
pub mod Ping
pub mod Session
pub mod SimpleChannels
pub mod Tcp
pub mod System
pub mod Load
pub mod Generator
pub mod Main
mod Tests
mod ConnTests
mod SystemTests
mod MainTests
