-- ===== src/Tools.antt =====
-- agentflow/tools: the tool that works on files, and the rules for its paths.
pub mod Disk
pub mod Paths
pub mod Markdown
pub mod FileSystem
