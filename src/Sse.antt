-- ===== src/Sse.antt =====
-- crates/rb-sse: the events of a tenant, kept for replay and sent to its clients.
pub mod Ring
pub mod Broadcaster
pub mod Stream
