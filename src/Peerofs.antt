-- ===== src/Peerofs.antt =====
-- Writing an erofs image (peerofs/src/build.rs): the tree of directories, the placement of a
-- directory's entries, and the arithmetic of blocks.
pub mod Blocks
pub mod Dirents
pub mod Disk
pub mod Tree
pub mod Writer
mod Tests
