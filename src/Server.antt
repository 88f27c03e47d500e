-- ===== src/Server.antt =====
-- packages/server: the coordinator of a cluster.
pub mod CanonicalWal
pub mod Coordinator
pub mod NodeRegistry
pub mod Delivery
pub mod DistributedServer
pub mod Meta
mod Tests
