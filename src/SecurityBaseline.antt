-- ===== src/SecurityBaseline.antt =====
-- The built-in security baseline: mcp-proxy/src/security_baseline.
pub mod Document
pub mod Path
