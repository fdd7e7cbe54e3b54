-- ===== src/Conversation.antt =====
-- agentflow/conversation: what a session remembers between turns.
pub mod Session
pub mod Compression
pub mod Patterns
pub mod Rewrite
pub mod Turns
pub mod Manager
pub mod Context
