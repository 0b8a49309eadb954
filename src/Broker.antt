-- ===== src/Broker.antt =====
-- crates/broker: the service that holds the credentials of the seal store. Each child models one
-- file, or one part of crates/broker/src/main.rs.
pub mod Result
pub mod Seal
pub mod Tenant
pub mod Kube
pub mod Resolver
pub mod Store
pub mod Metrics
pub mod Http
pub mod Server
pub mod Config
pub mod Spool
