-- ===== src/Lake/Journal.antt =====
-- lake/journal/: a log of numbered files, and a key-value table kept in it.
pub mod Queue
pub mod Store
pub mod Transaction
mod Tests
