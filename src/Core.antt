-- ===== src/Core.antt =====
-- The package packages/core.
pub mod BloomFilter
pub mod FilterManager
pub mod RevokerStore
pub mod Revoker
pub mod Middleware
pub mod Backup
mod Tests
