-- ===== src/Threads.antt =====
-- bridge/threads.go: which messages a thread takes, their keys, links and depths.
pub mod Links
pub mod Rooted
pub mod Reach
pub mod Cycles
pub mod Candidates
pub mod Forest
pub mod Depths
pub mod Select
pub mod Ascending
pub mod Sorted
pub mod Selection
pub mod Order
pub mod Keys
pub mod Numerals
pub mod Distinct
pub mod Whole
pub mod Examples
