-- ===== src/Snapshots.antt =====
-- Package snapshots: the chunks that a snapshot is cut into, and the manager's operations.
pub mod Chunk
pub mod Manager
pub mod Extensions
pub mod Keys
