-- ===== src/Tests.antt =====
-- Concrete inputs for the theorems, by the part of the program.
pub mod Validation
pub mod Volumes
pub mod Locks
pub mod Tools
pub mod Plugins
pub mod Ids
pub mod Serving
pub mod Client
pub mod Endpoints
pub mod MapWs
pub mod Etcd
pub mod Commands
pub mod MockPlugin
pub mod Running
