-- ===== src/Keycodec.antt =====
-- keycodec/slot.go and keycodec/keycodec.go: the layout of every key, and the slot of a key.
pub mod Slot
pub mod Keys
pub mod Escape
pub mod Parse
pub mod RoundTrip
mod Tests
pub mod Malformed
pub mod Distinct
pub mod Replica
pub mod Colocation
