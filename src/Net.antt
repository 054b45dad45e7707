-- ===== src/Net.antt =====
-- The directory protocol/net: packet headers, framing, and the two ends of a session.
pub mod Header
pub mod Session
pub mod Framing
pub mod Clock
pub mod Client
pub mod Server
pub mod Handshake
pub mod DmlSession
