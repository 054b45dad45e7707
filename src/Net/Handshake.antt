-- ===== src/Net/Handshake.antt =====
-- The two ends of a session together: the offer, its acceptance, and the keep-alive messages.
pub mod Delivery
pub mod Offer
pub mod KeepAlive
