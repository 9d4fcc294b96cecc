-- ===== src/Api.antt =====
-- crates/secureops-api/src: the parts of the HTTP API that are modelled.
pub mod Models
pub mod Store
pub mod Auth
pub mod Routes
pub mod Remediations
pub mod RateLimit
pub mod License
mod Tests
