-- ===== src/Plant.antt =====
-- The daemon of crates/plant: the proxy between the harnesses and their services, which captures turns.
pub mod Adapter
pub mod Websocket
pub mod Jobs
pub mod Sweep
