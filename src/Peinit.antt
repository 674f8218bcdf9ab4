-- ===== src/Peinit.antt =====
-- The messages between the host and the guest (peinit/src/lib.rs).
pub mod Types
pub mod IoFile
mod Tests
