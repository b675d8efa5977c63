-- ===== src/Cli.antt =====
-- cmd/cli and internal/cli: the command line client.
pub mod Config
pub mod Configure
pub mod Client
pub mod Upload
pub mod Poll
