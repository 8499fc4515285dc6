-- ===== src/Core.antt =====
-- The crate quote-core: errors, tickers, the command protocol, the wire format.
pub mod Constants
pub mod Tickers
pub mod Net
pub mod Error
pub mod Protocol
pub mod Types
pub mod Wire
pub mod Loopback
pub mod PlainPost
mod Tests
