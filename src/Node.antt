-- ===== src/Node.antt =====
-- packages/node: the participant of a cluster.
pub mod SyncEngine
pub mod StateFile
pub mod RevokerNode
