-- ===== src/Lake.antt =====
-- lake/: the versioned store of data objects.
pub mod SeekIndex
pub mod Result
pub mod Data
pub mod Commits
pub mod Journal
pub mod Branches
pub mod Pools
pub mod Branch
