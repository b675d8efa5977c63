-- ===== src/Analyzer/Dast.antt =====
-- internal/analyzer/dast: reading the system call trace of a sandboxed run.
pub mod Search
pub mod Fields
pub mod Report
pub mod Lines
pub mod Coverage
pub mod Sandbox
