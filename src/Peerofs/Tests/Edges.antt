-- ===== src/Peerofs/Tests/Edges.antt =====
-- What the writer and the reader do at the edges: an inode that fills a block, attributes whose lengths
-- are no multiple of four, prefixes of attributes, and a symbolic link with its target in a block.
use program_explorer.Prelude.{ℕ, ◌+◌, ◌≡◌, refl, some, List, [], ◌∷◌, length}
use program_explorer.Prelude.Bytes.{Bytes, codes, to_le_bytes, from_le_bytes}
use program_explorer.Prelude.Result.{ok, err}
use program_explorer.Peerofs.Blocks.{zero_fill}
use program_explorer.Peerofs.Disk.{
  get_range, get_from, ref_from_prefix, round_up_to, layout_from, oob, not_expecting_block_data,
}
use program_explorer.Peerofs.Disk.Structs.{
  InodeExtended, extended, inode_extended_bytes, get_layout, from_raw_mode,
}
use program_explorer.Peerofs.Disk.Attributes.{
  XattrEntry, xattr_builtin_prefix, find_prefix, items, items_with, prepend_item, next,
  next_unshared, next_unshared_from, read_unshared, read_xattr_entry, xattr_entry_bytes, or_nothing,
  prefix_from,
}
use program_explorer.Peerofs.Disk.Image.{
  Erofs, get_symlink, get_data, get_data_as, get_plain, block_offset,
}
use program_explorer.Peerofs.Writer.Inodes.{InodesState, move_to_block, xattrs_body}
use program_explorer.Peerofs.Writer.Entries.{Writer}
use program_explorer.Peerofs.Writer.Inodes.Xattrs.{unshared}

-- A writer of which only the position is known.
abbrev counting : Writer ℕ
counting = record { write_all = λ p b. some (p + length b); seek = λ p n. some n }

abbrev start : InodesState ℕ
start = record { writer = 12288; n_inodes = 0; inode_addr = 12288; meta_block = some 3 }

-- The address goes on by a block, and the writer does not.
full_block :
    move_to_block counting start 4096
    ≡ ok (record { writer = 12288; n_inodes = 0; inode_addr = 16384; meta_block = some 3 })
unfolding move_to_block zero_fill to_le_bytes
full_block = refl

security_prefix : xattr_builtin_prefix (codes "security.selinux") ≡ some (5, 0)
unfolding xattr_builtin_prefix find_prefix
security_prefix = refl

unknown_prefix : xattr_builtin_prefix (codes "other") ≡ some (5, 0)
unfolding xattr_builtin_prefix find_prefix
unknown_prefix = refl

abbrev entries : List (ℕ × XattrEntry)
entries =
    (5, record { name_len = 1; name_index = 1; value_size = 1 })
    ∷ (5, record { name_len = 1; name_index = 1; value_size = 1 })
    ∷ []

abbrev xattrs : List (Bytes × Bytes)
xattrs = (codes "user.a", 7 ∷ []) ∷ (codes "user.b", 8 ∷ []) ∷ []

-- The second attribute is looked for two bytes behind its start.
second_lost : items 3 (unshared [] (xattrs_body entries xattrs)) ≡ some (err oob)
unfolding items items_with prepend_item next next_unshared next_unshared_from read_unshared
    read_xattr_entry xattr_entry_bytes or_nothing prefix_from xattrs_body get_range get_from
    ref_from_prefix round_up_to to_le_bytes from_le_bytes
second_lost = refl

abbrev plain_link : InodeExtended
plain_link = record {
  format_layout = 1;
  xattr_count = 0;
  mode = 41471;
  size = 3;
  info = 0;
  ino = 0;
  uid = 0;
  gid = 0;
  mtime = 0;
  mtime_nsec = 0;
  nlink = 1;
}

abbrev image : Erofs
image = record {
  bytes = inode_extended_bytes plain_link;
  sb = record {
    magic = 0;
    checksum = 0;
    blkszbits = 12;
    root_disk_id = 0;
    inos = 1;
    meta_blkaddr = 0;
    xattr_blkaddr = 0;
  };
}

link_in_block : get_symlink image (extended 0 plain_link) ≡ err not_expecting_block_data
unfolding get_symlink get_data get_data_as get_plain block_offset get_range get_layout layout_from
    from_raw_mode inode_extended_bytes to_le_bytes
link_in_block = refl
