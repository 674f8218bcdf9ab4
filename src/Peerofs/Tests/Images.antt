-- ===== src/Peerofs/Tests/Images.antt =====
-- Theorems on inodes, images and walks at concrete ones.
use program_explorer.Prelude.{
  ℕ, ◌+◌, ◌≡◌, ◌≢◌, refl, arith, none, some, List, [], ◌∷◌, ◌++◌, length, take,
}
use program_explorer.Prelude.Bytes.{Bytes, codes, to_le_bytes, from_le_bytes}
use program_explorer.Prelude.Result.{ok, IfOk, ◌>>=◌}
use program_explorer.Peerofs.Blocks.{size_tail_len, default_block_size_bits}
use program_explorer.Peerofs.Disk.{
  div_mod_u16, flat_inline, flat_plain, compute_block_tail_len, directory, get_from,
  ref_from_prefix, round_up_to, layout_number,
}
use program_explorer.Peerofs.Disk.Structs.{
  Superblock, InodeExtended, inode_extended_bytes, extended, extended_type, format_layout_of,
  erofs_super_magic_v1, null_addr, zeros,
}
use program_explorer.Peerofs.Disk.Structs.RoundTrip.{IsInodeExtended}
use program_explorer.Peerofs.Disk.Entries.{
  DirentsIterator, dirent_bytes, items, find_item, new_iterator, loop_fuel, reset_count,
  count_unless_empty, count_entries, dirent_from_prefix, read_dirent,
}
use program_explorer.Peerofs.Disk.Entries.Ends.{items-HasResult}
use program_explorer.Peerofs.Disk.Attributes
use program_explorer.Peerofs.Disk.Attributes.{
  XattrEntry, prefix_from, xattr_count, xattr_count_to_len,
}
use program_explorer.Peerofs.Disk.Image.{
  Erofs, get_inode, get_data, get_block, lookup, raw_inode_offset, block_offset,
}
use program_explorer.Peerofs.Disk.Image.Lookup.{lookup-HasResult}
use program_explorer.Peerofs.Disk.Image.Compressed.{get_compressed_data_vec}
use program_explorer.Peerofs.Disk.Image.Clusters.{get_compressed_data_vec-HasResult}
use program_explorer.Peerofs.Writer.{
  Meta, DirInfo, Children, dir_child, dot, dot_dot, end, child, walk_tree, TreeVisitor,
}
use program_explorer.Peerofs.Writer.Depth.{Total, Limited, children_height, walk_tree-Limited}
use program_explorer.Peerofs.Writer.Numbers.{
  AllChildren, DirHasNumber, FileHasNumber, write_inodes-AllNumbers,
}
use program_explorer.Peerofs.Writer.Inodes.{
  InodesState, write_dir_inodes, write_file_inodes, xattrs_body,
}
use program_explorer.Peerofs.Writer.Inodes.Address.{appending}
use program_explorer.Peerofs.Writer.Inodes.ReadBack.{Holds, get_data-Holds}
use program_explorer.Peerofs.Writer.Inodes.Xattrs.{
  store, stores, unshared, read_items, items-xattrs_body,
}

-- One entry with the name `a`.
abbrev one_entry : Bytes
one_entry = dirent_bytes (record { disk_id = 5; name_offset = 12; file_type = 2 }) ++ codes "a"

abbrev at_first : DirentsIterator
at_first = record { bytes = one_entry; remaining = some []; i = 0; count = 1; block_size = 4096 }

at_first_new : new_iterator (one_entry, []) 4096 ≡ ok at_first
unfolding new_iterator reset_count count_unless_empty count_entries dirent_from_prefix read_dirent
    dirent_bytes to_le_bytes ref_from_prefix div_mod_u16 from_le_bytes
at_first_new = refl

items-HasResult_example :
    (items (loop_fuel (one_entry, [])) at_first ≢ none)
    × (find_item (loop_fuel (one_entry, [])) (codes "b") at_first ≢ none)
items-HasResult_example =
    items-HasResult (one_entry, []) 4096 at_first (codes "b") (omega arith) at_first_new

abbrev sb : Superblock
sb = record {
  magic = erofs_super_magic_v1;
  checksum = 0;
  blkszbits = 12;
  root_disk_id = 0;
  inos = 1;
  meta_blkaddr = 0;
  xattr_blkaddr = 0;
}

-- A file of three bytes, all in its tail.
abbrev tailed : InodeExtended
tailed = record {
  format_layout = 5;
  xattr_count = 0;
  mode = 33188;
  size = 3;
  info = null_addr;
  ino = 0;
  uid = 0;
  gid = 0;
  mtime = 0;
  mtime_nsec = 0;
  nlink = 1;
}

abbrev tail : Bytes
tail = 1 ∷ 2 ∷ 3 ∷ []

abbrev image : Erofs
image = record { bytes = inode_extended_bytes tailed ++ ([] ++ (tail ++ [])); sb = sb }

tailed-IsInodeExtended : IsInodeExtended tailed
tailed-IsInodeExtended = record {
  format_layout_lt = omega arith;
  xattr_count_lt = omega arith;
  mode_lt = omega arith;
  size_lt = omega arith;
  info_lt = omega arith;
  ino_lt = omega arith;
  uid_lt = omega arith;
  gid_lt = omega arith;
  mtime_lt = omega arith;
  mtime_nsec_lt = omega arith;
  nlink_lt = omega arith;
}

image-Holds : Holds image 0 tailed [] tail
unfolding raw_inode_offset block_offset xattr_count_to_len inode_extended_bytes to_le_bytes
image-Holds = record {
  before = [];
  rest = [];
  bytes_eq = refl;
  at = refl;
  xattrs_len = refl;
  no_wrap = omega arith;
}

tailed_layout : tailed.format_layout ≡ format_layout_of extended_type flat_inline
unfolding format_layout_of layout_number
tailed_layout = refl

tailed_tail : (size_tail_len tailed.size default_block_size_bits).2 ≡ length tail
unfolding size_tail_len
tailed_tail = refl

no_blocks : get_block image null_addr (size_tail_len tailed.size default_block_size_bits).1 ≡ ok []
unfolding get_block size_tail_len
no_blocks = refl

get_data-Holds_example :
    (get_inode image 0 ≡ ok (extended 0 tailed))
    × (get_data image (extended 0 tailed) ≡ ok ([], tail))
get_data-Holds_example =
    get_data-Holds image 0 tailed [] tail [] image-Holds tailed-IsInodeExtended tailed_layout refl
      (omega arith) tailed_tail no_blocks

lookup-HasResult_example : lookup image (codes "a" ∷ []) ≢ none
lookup-HasResult_example = lookup-HasResult image (codes "a" ∷ [])

get_compressed_data_vec-HasResult_example :
    get_compressed_data_vec (λ b n. some (take n b)) image (extended 0 tailed) ≢ none
get_compressed_data_vec-HasResult_example =
    get_compressed_data_vec-HasResult (λ b n. some (take n b)) image (extended 0 tailed)

abbrev meta : Meta
meta = record { uid = 0; gid = 0; mtime = 0; mode = 420; xattrs = [] }

abbrev info : DirInfo
info = record {
  meta = meta;
  disk_id = none;
  start_block = 1;
  n_dirents_per_block = [];
  total_size = 0;
}

abbrev below : Children
below =
    child (codes ".") dot (child (codes "..") dot_dot (child (codes "d") (dir_child info end) end))

abbrev counter : TreeVisitor ℕ
counter = record {
  on_file = λ n f. ok (n, f);
  on_symlink = λ n f. ok (n, f);
  on_dir_enter = λ n d cs. ok (n + 1, d);
  on_dir_exit = λ n d cs. ok (n, d);
}

counter-Total : Total counter
counter-Total = record {
  file_ok = λ n f. ((n, f), refl);
  symlink_ok = λ n f. ((n, f), refl);
  enter_ok = λ n d cs. ((n + 1, d), refl);
  exit_ok = λ n d cs. ((n, d), refl);
}

walk_tree-Limited_example : Limited (children_height below) 2 (walk_tree counter 2 0 info below)
walk_tree-Limited_example = walk_tree-Limited counter counter-Total 2 info below 0

abbrev start : InodesState Bytes
start = record { writer = zeros 12288; n_inodes = 0; inode_addr = 12288; meta_block = some 3 }

write_inodes-AllNumbers_example :
    IfOk
      (λ r. DirHasNumber r.1 × AllChildren DirHasNumber FileHasNumber r.2)
      (walk_tree (write_dir_inodes appending) 2 start info below >>= λ dirs.
        walk_tree (write_file_inodes appending) 2 dirs.0 dirs.1 dirs.2)
write_inodes-AllNumbers_example = write_inodes-AllNumbers appending 2 start info below

abbrev xattrs : List (Bytes × Bytes)
xattrs = (codes "user.a", 1 ∷ 2 ∷ 3 ∷ []) ∷ (codes "user.b", 4 ∷ []) ∷ []

abbrev entry_a : ℕ × XattrEntry
entry_a = (5, record { name_len = 1; name_index = 1; value_size = 3 })

abbrev entry_b : ℕ × XattrEntry
entry_b = (5, record { name_len = 1; name_index = 1; value_size = 1 })

items-xattrs_body_example :
    program_explorer.Peerofs.Disk.Attributes.items 3
      (unshared [] (xattrs_body (entry_a ∷ entry_b ∷ []) xattrs ++ zeros 2))
    ≡ some (
        ok (
          read_items
            (store entry_a (codes "user.a", 1 ∷ 2 ∷ 3 ∷ []))
            (stores (entry_b ∷ []) ((codes "user.b", 4 ∷ []) ∷ []))))
unfolding prefix_from round_up_to
items-xattrs_body_example =
    items-xattrs_body 2 entry_a (entry_b ∷ []) (codes "user.a", 1 ∷ 2 ∷ 3 ∷ [])
      ((codes "user.b", 4 ∷ []) ∷ []) [] 0
      (
        record {
          stored = record {
            name_len_eq = refl;
            value_size_eq = refl;
            name_lt = omega arith;
            value_lt = omega arith;
            index_lt = omega arith;
            not_empty = omega arith;
          };
          prefix_eq = refl;
        },
        refl,
        (
          record {
            stored = record {
              name_len_eq = refl;
              value_size_eq = refl;
              name_lt = omega arith;
              value_lt = omega arith;
              index_lt = omega arith;
              not_empty = omega arith;
            };
            prefix_eq = refl;
          },
          refl,
        ),
      )
