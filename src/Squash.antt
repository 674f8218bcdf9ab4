-- ===== src/Squash.antt =====
-- Squashing the layers of an image into one (peimage/src/squash.rs).
pub mod Mark
pub mod Order
pub mod Deletions
pub mod Layer
mod Tests
