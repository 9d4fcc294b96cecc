-- ===== src/AuditLog.antt =====
-- crates/secureops-auditlog/src/lib.rs: the hash chained, signed audit log.
pub mod Hex
pub mod Types
pub mod Signer
pub mod Log
pub mod Open
mod Tests
