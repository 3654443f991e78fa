-- ===== src/Uuid.antt =====
-- src/uuid: time-based UUIDs.
pub mod Fields
pub mod Hex
pub mod Source
pub mod Api
pub mod Layout
pub mod Order
pub mod RoundTrip
pub mod Unique
pub mod Sample
mod Tests
