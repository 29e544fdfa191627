-- ===== src/Witness.antt =====
-- The theorems at concrete inputs: a small host, documents, rules and actions.
pub mod Data
mod Policies
mod Paths
mod Cards
mod Gateways
mod Approvals
mod Pipelines
