-- ===== src/Rowcodec.antt =====
-- rowcodec: how rows and index entries are stored.
pub mod Member
pub mod RoundTrip
mod Tests
