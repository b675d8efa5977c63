-- ===== src/Examples.antt =====
-- The theorems at concrete inputs.
mod Tables
mod Machines
pub mod Handlers
mod Archives
pub mod Messages
mod Requests
mod Traces
mod Jobs
mod LogFiles
mod Pages
mod Profiles
mod Stores
pub mod Keys
mod Lives
mod Clients
mod Wires
mod Platforms
mod Routers
mod Findings
mod Settings
