-- ===== src/Server.antt =====
-- The HTTP server's parts that decide what happens to an upload and to a request.
pub mod Extractor
pub mod Bus
pub mod Quarantine
pub mod Auth
pub mod Logs
pub mod Reads
pub mod Handlers
pub mod Upload
pub mod Buckets
pub mod AuthKeys
pub mod Extraction
pub mod Config
