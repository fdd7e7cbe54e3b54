-- ===== src/Services.antt =====
-- agentflow/services: the client of the LLM.
pub mod Breaker
pub mod Llm
pub mod Completions
pub mod Errors
