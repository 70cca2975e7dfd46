-- ===== src/Bitcask.antt =====
-- bitcask/main.go
pub mod Checksum
pub mod Record
pub mod Store
pub mod Segment
pub mod Merge
pub mod Grown
pub mod Appended
pub mod Opened
pub mod Moved
pub mod Scanned
pub mod MergeScan
pub mod MergeFile
pub mod MergeIndex
pub mod MergePass
pub mod Merged
pub mod Compaction
pub mod Kept
pub mod Written
pub mod Invariant
pub mod Read
pub mod Refinement
pub mod Progress
pub mod Runs
mod Tests
mod MergeTests
