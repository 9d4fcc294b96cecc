-- ===== src/Monitors.antt =====
-- crates/secureops-monitors/src/lib.rs: the circuit breaker's channel, and the monitors. The alert
-- bus is the list of the alerts that were published, oldest first; a monitor's loop is a run over
-- what its ticks read, up to its cancellation.
pub mod CostLog
pub mod Cost
pub mod Credential
pub mod Memory
pub mod Skills
mod Tests

pub data CircuitState : Type 0 where
  armed tripped : CircuitState
