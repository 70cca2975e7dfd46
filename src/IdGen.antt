-- ===== src/IdGen.antt =====
-- id-generators/
pub mod Disk
pub mod Served
pub mod Uniqueness
pub mod Ranges
pub mod Disjoint
pub mod Tests
