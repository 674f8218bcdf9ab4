-- ===== src/Peoci.antt =====
-- What is kept of an image's description (peoci/src/spec.rs and compression.rs).
pub mod Spec
pub mod Compression
mod Tests
