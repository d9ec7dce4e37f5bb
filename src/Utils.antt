-- ===== src/Utils.antt =====
-- utils/*.go: what the middleware and the command line share.
pub mod Versions
pub mod Parsing
pub mod MapWs
pub mod Methods
pub mod Success
pub mod Chain
pub mod Paging
pub mod Endpoint
