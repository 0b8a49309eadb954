-- ===== src/Recon.antt =====
-- crates/vaultr/src/recon.rs: the messages of a session, rebuilt from its capture. An error is none.
pub mod Delta
pub mod Output
pub mod Replay
pub mod Records
