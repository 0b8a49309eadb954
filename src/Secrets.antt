-- ===== src/Secrets.antt =====
-- crates/vaultr/src/secrets: the scanner for secrets, and the policy that it is given.
pub mod Random
pub mod Matcher
pub mod Policy
pub mod Scan
