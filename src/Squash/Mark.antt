-- ===== src/Squash/Mark.antt =====
-- The errors and the marks of deleted paths of peimage/src/squash.rs.
use program_explorer.Prelude.{ℕ}
use program_explorer.Prelude.Bytes.{Bytes}

-- An `io::Error` and an error of peerofs stand by their texts, an entry type by its byte.
pub data Error : Type 0 where
  io : Bytes → Error
  opaque_whiteout_no_parent hardlink_no_link xattr_key_utf8_error uid_too_big gid_too_big : Error
  unhandled_entry_type : ℕ → Error
  erofs : Bytes → Error

pub data Whiteout : Type 0 where
  whiteout opaque : Bytes → Whiteout
