-- ===== src/Plant/Websocket.antt =====
-- crates/plant/src/proxy/websocket.rs: the relay of a websocket and what it captures.
pub mod Headers
pub mod Normalize
pub mod Messages
pub mod Relay
