-- ===== src/Txguard.antt =====
-- txguard: the write path of a row.
pub mod Entries
pub mod Ops
pub mod Keyspace
pub mod Unique
pub mod Write
pub mod Row
pub mod Delete
pub mod Samples
mod Tests
