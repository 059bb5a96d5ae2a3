-- ===== src/Types.antt =====
-- types/: what the stores share.
pub mod Validity
pub mod KvStore
pub mod Gas
pub mod Utils
