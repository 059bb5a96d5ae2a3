-- ===== src/Pruning.antt =====
-- pruning/: the heights that may be pruned. An `int64` is its 64 bits as a number.
pub mod Options
pub mod Manager
pub mod Heights
pub mod Recovery
pub mod Snapshots
