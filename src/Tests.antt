-- ===== src/Tests.antt =====
-- Concrete instances of the interfaces, and the theorems on concrete inputs.
pub mod Model
mod CacheKv
mod Gas
mod GasKv
mod MultiVersion
mod Prefix
mod Utils
mod Pruning
mod ListStore
mod MvKv
mod Store
mod Snapshots
mod Tree
mod InterBlock
mod MergeIterator
