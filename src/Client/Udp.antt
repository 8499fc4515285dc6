-- ===== src/Client/Udp.antt =====
-- quote-client/src/udp.rs.
pub mod Ping
pub mod Sleeps
pub mod Pace
pub mod Stops
pub mod Delivered
pub mod Receiver
