-- ===== src/SelfHeal.antt =====
-- crates/secureops-selfheal: remediation playbooks, their engine and its circuit breaker.
pub mod Types
pub mod Breaker
pub mod Engine
pub mod Step
mod Tests
