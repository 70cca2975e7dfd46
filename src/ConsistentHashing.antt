-- ===== src/ConsistentHashing.antt =====
-- consistent_hashing/
pub mod Hash
pub mod Search
pub mod Ring
pub mod Slots
pub mod Clockwise
pub mod Changes
pub mod Moves
pub mod Tests
