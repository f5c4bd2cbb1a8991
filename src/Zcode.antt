-- ===== src/Zcode.antt =====
-- zcode/: the tag-and-body encoding of ZNG values.
pub mod Uvarint
pub mod Counted
pub mod Bytes
pub mod Iter
pub mod Builder
mod Tests
