-- ===== src/Harden.antt =====
-- crates/secureops-harden: what hardening does to the configuration, its backups and the rollback.
pub mod Files
pub mod Gateway
pub mod GatewayCheck
pub mod ConfigCheck
pub mod Config
pub mod Run
pub mod Rollback
pub mod Disk
pub mod Tests
