-- ===== src/Kv.antt =====
-- crates/bridge-kv-gqa: the paged cache of keys and values that a session keeps for its layers.
pub mod Types
pub mod Pages
pub mod Rows
pub mod Blocks
pub mod Slices
pub mod Tables
pub mod Updates
pub mod Writes
pub mod Fills
pub mod NewPages
pub mod Allocation
pub mod Views
pub mod Checks
pub mod Appends
pub mod Reads
pub mod Fresh
pub mod Counts
pub mod Lazy
pub mod Rewinds
pub mod Histories
pub mod Refinement
pub mod Snapshots
