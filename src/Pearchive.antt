-- ===== src/Pearchive.antt =====
-- The archive format that carries a user's files into and out of a container (pearchive/src).
pub mod Format
pub mod Pack
pub mod Unpack
pub mod UnpackDir
pub mod Forest
pub mod BufWriter
pub mod Walk
mod Tests
