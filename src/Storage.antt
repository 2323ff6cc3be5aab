-- ===== src/Storage.antt =====
-- storage/: what the persistence layer writes, and how it reads it back.
pub mod Codec
pub mod Object
pub mod ElemKey
pub mod Prefix
pub mod Merge
mod Tests
