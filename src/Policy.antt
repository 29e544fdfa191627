-- ===== src/Policy.antt =====
-- The declarative policy engine: mcp-proxy/src/policy.
pub mod Schema
pub mod Compile
pub mod Validate
pub mod Compose
pub mod Context
pub mod Matching
pub mod Redact
pub mod Evaluation
pub mod Authority
