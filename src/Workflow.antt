-- ===== src/Workflow.antt =====
-- agentflow/graph/workflow.py: the state of the workflow, its routers, its nodes and its graph.
pub mod State
pub mod Select
pub mod Routes
pub mod Parallel
pub mod Repair
pub mod Nodes
pub mod ToolNode
pub mod Graph
