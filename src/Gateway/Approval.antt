-- ===== src/Gateway/Approval.antt =====
-- Approval grants: mcp-proxy/src/gateway/approval/grant.rs.
pub mod Binding
pub mod Maps
pub mod Grant
pub mod Context
pub mod Outcome
pub mod Store
pub mod Live
pub mod Authorize
pub mod Spent
pub mod Replay
pub mod History
pub mod Mint
