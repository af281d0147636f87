-- ===== src/Exec.antt =====
-- exec: how queries are answered.
pub mod Merge
pub mod MergeOrder
pub mod Order
pub mod Seeding
pub mod Popping
pub mod Refills
pub mod BatchOrder
mod Tests
