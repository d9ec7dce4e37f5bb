-- ===== src/Mock.antt =====
-- mock/service: the mock plug-in, a service that keeps its volumes in memory.
pub mod Service
pub mod Controller
pub mod Node
pub mod Identity
pub mod View
pub mod Provider
pub mod Listing
pub mod Kept
pub mod Effects
pub mod Server
