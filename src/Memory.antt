-- ===== src/Memory.antt =====
-- memory/: the index in memory, its access metadata, expiry and eviction.
pub mod Clock
pub mod Entry
pub mod Shards
pub mod Db
pub mod Evict
pub mod Dict
pub mod Expire
mod Tests
