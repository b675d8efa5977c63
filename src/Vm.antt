-- ===== src/Vm.antt =====
-- The service that runs functions in virtual machines: internal/vm.
pub mod Cid
pub mod Resource
pub mod Connect
pub mod Stream
pub mod Drive
pub mod Runner
pub mod Service
pub mod Queue
pub mod Machine
pub mod Router
pub mod Config
