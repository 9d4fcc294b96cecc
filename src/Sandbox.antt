-- ===== src/Sandbox.antt =====
-- crates/secureops-sandbox/src/lib.rs: the sandbox that runs skills under negotiated capabilities.
pub mod Types
pub mod Negotiate
pub mod Run
mod Tests
