-- ===== src/Client.antt =====
-- The crate quote-client.
pub mod Args
pub mod Tcp
pub mod Udp
pub mod Main
mod Tests
mod MainTests
mod StreamTests
