-- ===== src/WordDictionary.antt =====
-- word-dictionary/
pub mod Entry
pub mod Appends
pub mod Dictionary
pub mod Inserts
pub mod Meanings
pub mod Refinement
pub mod Import
pub mod Loads
pub mod Merges
pub mod Imports
pub mod Latest
pub mod Tests
