-- ===== src/Memory/Tests.antt =====
-- Examples of memory/, on a database of two shards that holds one key.
mod Data
mod Db
mod Dict
