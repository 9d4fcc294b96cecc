-- ===== src/Policy.antt =====
-- crates/secureops-policy: the policy decision point.
pub mod Types
pub mod Cache
pub mod Cached
pub mod Allowlist
pub mod Rego
pub mod Cedar
mod Tests
