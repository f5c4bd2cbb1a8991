-- ===== src/Lake/Commits.antt =====
-- lake/commits/: commit objects, the snapshots that they add up to, and patches.
pub mod Actions
pub mod Snapshot
pub mod Patch
pub mod Cache
pub mod Store
mod Tests
