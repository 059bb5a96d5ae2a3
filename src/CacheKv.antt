-- ===== src/CacheKv.antt =====
-- cachekv
pub mod Merge
pub mod BTree
pub mod MemIterator
pub mod Store
