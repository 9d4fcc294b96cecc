-- ===== src/Checks.antt =====
-- crates/secureops-checks: the check of the gateway, of the audit.
pub mod Findings
pub mod Ports
pub mod Gateway
