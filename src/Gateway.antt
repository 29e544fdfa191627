-- ===== src/Gateway.antt =====
-- The agent execution gateway: mcp-proxy/src/gateway.
pub mod Posture
pub mod Decision
pub mod Failure
pub mod PolicyStage
pub mod RiskStage
pub mod Approval
pub mod Pipeline
