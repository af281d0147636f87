-- ===== src/Controller.antt =====
-- controller: the jobs that keep the buckets in shape.
pub mod Redis
pub mod Migrate
mod Simple
mod Tests
