-- ===== src/ImageIndex/KeyType.antt =====
-- `PEImageMultiIndexKeyType` of peimage/src/index.rs.
pub data KeyType : Type 0 where
  name digest_with_slash digest : KeyType
