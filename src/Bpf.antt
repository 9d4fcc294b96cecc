-- ===== src/Bpf.antt =====
-- crates/secureops-bpf/src: syscall events and the chain correlator.
pub mod Events
pub mod Chain
mod Tests
