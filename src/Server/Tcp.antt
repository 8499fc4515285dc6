-- ===== src/Server/Tcp.antt =====
-- quote-server/src/tcp.rs.
pub mod Accept
pub mod Reaped
pub mod Joined
pub mod Conn
