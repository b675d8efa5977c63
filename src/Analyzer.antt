-- ===== src/Analyzer.antt =====
-- The analyzer service: internal/analyzer.
pub mod Config
pub mod Queue
pub mod Clam
pub mod Dast
pub mod Unzipper
pub mod Llm
pub mod Sanitizer
pub mod Tools
pub mod Orchestrator
pub mod Listener
