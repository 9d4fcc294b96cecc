-- ===== src/Budget.antt =====
-- crates/secureops-tokenbudget/src/lib.rs: packing evidence into a token window.
pub mod Pack
pub mod Chunks
mod Tests
