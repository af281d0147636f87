-- ===== src/Kv.antt =====
-- kv: the client's error classes and retries.
pub mod Retry
pub mod Attempts
mod Tests
