-- ===== src/Core.antt =====
-- crates/secureops-core: the finding types, the score and the cross-layer pass.
pub mod Types
pub mod Runtime
pub mod Util
pub mod Config
pub mod Scoring
mod Tests
