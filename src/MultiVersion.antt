-- ===== src/MultiVersion.antt =====
-- The package multiversion/: the versions of a key that concurrent transactions write.
pub mod ValueItem
pub mod ListItem
pub mod ShardedMap
pub mod Tracker
pub mod MergeIterator
pub mod ListStore
pub mod Interface
pub mod MvKv
pub mod TreeItem
pub mod Store
