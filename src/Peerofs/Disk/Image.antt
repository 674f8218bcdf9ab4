-- ===== src/Peerofs/Disk/Image.antt =====
-- `Erofs` in disk.rs: the access to an image. Sums and shifts in u64 and usize wrap around; a shift is
-- by the lowest six bits of its number.
pub mod Compressed
pub mod Clusters
pub mod Lookup
use program_explorer.Prelude.{
  ℕ, zero, suc, ◌+◌, ◌-◌, ◌*◌, ◌/◌, ◌%◌, ◌^◌, Bool, true, false, not, Option, none, some, List, [],
  ◌∷◌, length, take, drop, ◌==◌, ltb, if◌then◌else◌,
}
use program_explorer.Prelude.Bytes.{Bytes, bytes_eq}
use program_explorer.Prelude.Result.{Result, ok, err, ◌>>=◌, ◌>>◌, ensure, ok_or}
use program_explorer.Peerofs.Disk.{
  Error, oob, bad_magic, inode_too_big, block_len_should_be_zero, layout_not_handled, not_dir,
  not_symlink, not_expecting_block_data, not_compressed, not_compressed_full, Layout, flat_plain,
  compressed_full, flat_inline, compressed_compact, chunk_based, is_compressed, get_from, get_range,
  ref_from_prefix, round_up_to, compute_block_tail_len,
}
use program_explorer.Peerofs.Disk.Structs.{
  Superblock, superblock_size, read_superblock, erofs_super_offset, erofs_super_magic_v1, null_addr,
  Inode, new_inode, disk_id, data_size, size, xattr_count, raw_block_addr, layout, file_type,
  FileType, regular, dir, link, other,
}
use program_explorer.Peerofs.Disk.Entries.{
  DirentsIterator, DirentItem, new_iterator, find_item, loop_fuel,
}
use program_explorer.Peerofs.Disk.Attributes.{
  XattrHeader, XattrsIterator, xattr_header_size, read_xattr_header, xattr_count_to_len,
}

pub record Erofs : Type 0 where
  pub bytes : Bytes
  pub sb : Superblock

-- `x as usize` of a sum
abbrev pub wrap : ℕ → ℕ
wrap n = n % 2 ^ 64

unfoldable pub new_erofs : Bytes → Result Error Erofs
new_erofs bytes = do
  rest ← get_from bytes erofs_super_offset
  sb ← ref_from_prefix superblock_size rest
  ensure ((read_superblock sb.0).magic == erofs_super_magic_v1) bad_magic
  ok (record { bytes = bytes; sb = read_superblock sb.0 })

abbrev pub block_size : Erofs → ℕ
block_size e = 2 ^ (e.sb.blkszbits % 64)

unfoldable pub block_offset : Erofs → ℕ → ℕ
block_offset e block = wrap (block * block_size e)

unfoldable pub raw_inode_offset : Erofs → ℕ → ℕ
raw_inode_offset e id = wrap (block_offset e e.sb.meta_blkaddr + 32 * id)

abbrev pub inode_offset : Erofs → Inode → ℕ
inode_offset e inode = raw_inode_offset e (disk_id inode)

abbrev pub xattr_len : Inode → Option ℕ
xattr_len inode =
    let len : ℕ = xattr_count_to_len (xattr_count inode) in if len == 0 then none else some len

unfoldable pub inode_end : Erofs → Inode → ℕ
inode_end e inode =
    wrap (inode_offset e inode + size inode + xattr_count_to_len (xattr_count inode))

unfoldable pub get_inode : Erofs → ℕ → Result Error Inode
get_inode e id = get_from e.bytes (raw_inode_offset e id) >>= new_inode id

unfoldable pub get_inode_from_dirent : Erofs → DirentItem → Result Error Inode
get_inode_from_dirent e item = do
  ensure (ltb item.disk_id (2 ^ 32)) inode_too_big
  get_inode e item.disk_id

unfoldable pub get_root_inode : Erofs → Result Error Inode
get_root_inode e = get_inode e e.sb.root_disk_id

-- The blocks of a file with a tail; a file without any has a block number that says so.
unfoldable pub get_block : Erofs → ℕ → ℕ → Result Error Bytes
get_block e block_addr block_len =
    let data_begin : ℕ = block_offset e block_addr in
    if block_addr == null_addr
    then (ensure (block_len == 0) block_len_should_be_zero >>= λ _. ok [])
    else get_range e.bytes data_begin (wrap (data_begin + block_len))

unfoldable pub get_inline : Erofs → Inode → Result Error (Bytes × Bytes)
get_inline e inode = do
  let lens = compute_block_tail_len (block_size e) (data_size inode)
  let data_begin = inode_end e inode
  tail ← get_range e.bytes data_begin (wrap (data_begin + lens.1))
  block ← get_block e (raw_block_addr inode) lens.0
  ok (block, tail)

unfoldable pub get_plain : Erofs → Inode → Result Error (Bytes × Bytes)
get_plain e inode =
    let data_begin : ℕ = block_offset e (raw_block_addr inode) in
    if data_size inode == 0
    then ok ([], [])
    else (get_range e.bytes data_begin (wrap (data_begin + data_size inode)) >>= λ x. ok (x, []))

unfoldable pub get_data_as : Erofs → Inode → Layout → Result Error (Bytes × Bytes)
get_data_as e inode flat_inline = get_inline e inode
get_data_as e inode flat_plain = get_plain e inode
get_data_as e inode compressed_full = err (layout_not_handled compressed_full)
get_data_as e inode compressed_compact = err (layout_not_handled compressed_compact)
get_data_as e inode chunk_based = err (layout_not_handled chunk_based)

-- The bytes in blocks, and those of the tail.
unfoldable pub get_data : Erofs → Inode → Result Error (Bytes × Bytes)
get_data e inode = layout inode >>= get_data_as e inode

abbrev pub is_dir : FileType → Bool
is_dir dir = true
is_dir typ = false

abbrev pub is_link : FileType → Bool
is_link link = true
is_link typ = false

unfoldable pub get_dirents : Erofs → Inode → Result Error (Bytes × Bytes)
get_dirents e inode = do ensure (is_dir (file_type inode)) not_dir; get_data e inode

unfoldable pub get_symlink : Erofs → Inode → Result Error Bytes
get_symlink e inode = do
  ensure (is_link (file_type inode)) not_symlink
  contents ← get_data e inode
  ensure (length contents.0 == 0) not_expecting_block_data
  ok contents.1

-- The iterator over the attributes of an inode that has some.
unfoldable pub get_xattrs_of : Erofs → Inode → Option ℕ → Result Error (Option XattrsIterator)
get_xattrs_of e inode none = ok none
get_xattrs_of e inode (some len) = do
  let offset = wrap (inode_offset e inode + size inode)
  bytes ← get_range e.bytes offset (wrap (offset + len))
  shared ← get_from e.bytes (block_offset e e.sb.xattr_blkaddr)
  header ← ref_from_prefix xattr_header_size bytes
  ok (
      some (record {
        bytes = header.1;
        shared = shared;
        shared_remaining = (read_xattr_header header.0).shared_count;
      }))

unfoldable pub get_xattrs : Erofs → Inode → Result Error (Option XattrsIterator)
get_xattrs e inode = get_xattrs_of e inode (xattr_len inode)

-- `lookup`, by the components of the path; none where the fuel of a loop does not suffice.
unfoldable pub entries_of : Erofs → Inode → Result Error (Bytes × Bytes × DirentsIterator)
entries_of e inode = do
  bytes ← get_dirents e inode
  it ← new_iterator bytes (block_size e)
  ok (bytes.0, bytes.1, it)

unfoldable pub search_dir :
    Bytes
    → Result Error (Bytes × Bytes × DirentsIterator)
    → Option (Result Error (Option DirentItem))
search_dir name (err x) = some (err x)
search_dir name (ok (block, tail, it)) = find_item (loop_fuel (block, tail)) name it

unfoldable pub or_lookup :
    (Inode → Option (Result Error (Option Inode)))
    → Result Error Inode
    → Option (Result Error (Option Inode))
or_lookup rest (err x) = some (err x)
or_lookup rest (ok inode) = rest inode

-- Where the search led, the look at the rest of the path goes on.
unfoldable pub then_lookup :
    Erofs
    → (Inode → Option (Result Error (Option Inode)))
    → Option (Result Error (Option DirentItem))
    → Option (Result Error (Option Inode))
then_lookup e rest none = none
then_lookup e rest (some (err x)) = some (err x)
then_lookup e rest (some (ok none)) = some (ok none)
then_lookup e rest (some (ok (some item))) = or_lookup rest (get_inode_from_dirent e item)

unfoldable pub lookup_from : Erofs → List Bytes → Inode → Option (Result Error (Option Inode))
lookup_from e [] cur = some (ok (some cur))
lookup_from e (name ∷ names) cur =
    then_lookup e (lookup_from e names) (search_dir name (entries_of e cur))

unfoldable pub lookup : Erofs → List Bytes → Option (Result Error (Option Inode))
lookup e names = or_lookup (lookup_from e names) (get_root_inode e)
