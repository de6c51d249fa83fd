-- ===== src/Transport.antt =====
-- transport/src: what a connection has to show before it carries a desktop session.
pub mod ChannelHandshake
pub mod ChannelSession
pub mod Settings
pub mod Features
pub mod Resilient
pub mod Fallback
mod Tests
