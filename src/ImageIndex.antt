-- ===== src/ImageIndex.antt =====
-- The index of images of peimage/src/index.rs: each image file ends with its own index, and one map
-- holds the images of all files.
pub mod KeyType
pub mod File
pub mod Multi
mod Tests
