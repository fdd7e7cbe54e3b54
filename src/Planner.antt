-- ===== src/Planner.antt =====
-- agentflow/agents/planner: the templates of projects, and the agent that plans tasks.
pub mod Templates
pub mod Arguments
pub mod Files
pub mod Capability
pub mod Build
pub mod Fill
pub mod Design
pub mod Asking
pub mod Starting
pub mod Run
