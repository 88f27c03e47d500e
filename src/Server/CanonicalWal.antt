-- ===== src/Server/CanonicalWal.antt =====
-- The coordinator's canonical write-ahead log, packages/server/src/canonicalWal.ts.
pub mod Line
pub mod Files
pub mod Wal
pub mod Read
pub mod Truncate
pub mod Delivery
pub mod Backlog
pub mod Climb
pub mod Removal
pub mod Retention
pub mod Floor
pub mod Cursors
pub mod Numbering
pub mod RoundTrip
pub mod WholeFile
pub mod Torn
