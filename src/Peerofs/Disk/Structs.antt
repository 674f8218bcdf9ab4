-- ===== src/Peerofs/Disk/Structs.antt =====
-- The structures of disk.rs that lie on the disk: the superblock, and the two forms of an inode. A
-- field is a number with its width in bytes; the bytes that are reserved are not kept. The union of
-- `InodeInfo` is the number that its four bytes make.
pub mod RoundTrip
use program_explorer.Prelude.{
  ℕ, ◌+◌, ◌*◌, ◌/◌, ◌%◌, ◌^◌, ◌<◌, ◌≡◌, refl, arith, Bool, true, false, not, Option, none, some,
  List, [], ◌∷◌, ◌++◌, length, take, drop, ◌==◌, ltb, if◌then◌else◌,
}
use program_explorer.Prelude.Bytes.{Bytes, to_le_bytes, from_le_bytes}
use program_explorer.Prelude.Result.{Result, ok, err, ◌>>=◌, ◌>>◌, ensure, ok_or}
use program_explorer.Peerofs.Disk.{
  Error, oob, bad_conversion, bad_magic, not_reg_dir_link, Layout, layout_from, layout_number,
  get_from, ref_from_prefix, field,
}

abbrev pub erofs_super_offset : ℕ
erofs_super_offset = 1024

abbrev pub erofs_super_magic_v1 : ℕ
erofs_super_magic_v1 = 3774210530

-- `EROFS_NULL_ADDR`, `u32::MAX`
abbrev pub null_addr : ℕ
null_addr = 4294967295

abbrev pub zeros : ℕ → Bytes
zeros n = to_le_bytes n 0

-- The fields that the code reads or writes; the others are zero in an image that is built.
pub record Superblock : Type 0 where
  pub magic : ℕ
  pub checksum : ℕ
  pub blkszbits : ℕ
  pub root_disk_id : ℕ
  pub inos : ℕ
  pub meta_blkaddr : ℕ
  pub xattr_blkaddr : ℕ

abbrev pub superblock_size : ℕ
superblock_size = 128

unfoldable pub superblock_bytes : Superblock → Bytes
superblock_bytes sb =
    to_le_bytes 4 sb.magic
    ++ to_le_bytes 4 sb.checksum
    ++ zeros 4
    ++ to_le_bytes 1 sb.blkszbits
    ++ zeros 1
    ++ to_le_bytes 2 sb.root_disk_id
    ++ to_le_bytes 8 sb.inos
    ++ zeros 16
    ++ to_le_bytes 4 sb.meta_blkaddr
    ++ to_le_bytes 4 sb.xattr_blkaddr
    ++ zeros 80

unfoldable pub read_superblock : Bytes → Superblock
read_superblock b = record {
  magic = field 0 4 b;
  checksum = field 4 4 b;
  blkszbits = field 12 1 b;
  root_disk_id = field 14 2 b;
  inos = field 16 8 b;
  meta_blkaddr = field 40 4 b;
  xattr_blkaddr = field 44 4 b;
}

pub record InodeCompact : Type 0 where
  pub format_layout : ℕ
  pub xattr_count : ℕ
  pub mode : ℕ
  pub nlink : ℕ
  pub size : ℕ
  pub info : ℕ
  pub ino : ℕ
  pub uid : ℕ
  pub gid : ℕ

abbrev pub inode_compact_size : ℕ
inode_compact_size = 32

unfoldable pub read_inode_compact : Bytes → InodeCompact
read_inode_compact b = record {
  format_layout = field 0 2 b;
  xattr_count = field 2 2 b;
  mode = field 4 2 b;
  nlink = field 6 2 b;
  size = field 8 4 b;
  info = field 16 4 b;
  ino = field 20 4 b;
  uid = field 24 2 b;
  gid = field 26 2 b;
}

pub record InodeExtended : Type 0 where
  pub format_layout : ℕ
  pub xattr_count : ℕ
  pub mode : ℕ
  pub size : ℕ
  pub info : ℕ
  pub ino : ℕ
  pub uid : ℕ
  pub gid : ℕ
  pub mtime : ℕ
  pub mtime_nsec : ℕ
  pub nlink : ℕ

abbrev pub inode_extended_size : ℕ
inode_extended_size = 64

unfoldable pub inode_extended_bytes : InodeExtended → Bytes
inode_extended_bytes i =
    to_le_bytes 2 i.format_layout
    ++ to_le_bytes 2 i.xattr_count
    ++ to_le_bytes 2 i.mode
    ++ zeros 2
    ++ to_le_bytes 8 i.size
    ++ to_le_bytes 4 i.info
    ++ to_le_bytes 4 i.ino
    ++ to_le_bytes 4 i.uid
    ++ to_le_bytes 4 i.gid
    ++ to_le_bytes 8 i.mtime
    ++ to_le_bytes 4 i.mtime_nsec
    ++ to_le_bytes 4 i.nlink
    ++ zeros 16

unfoldable pub read_inode_extended : Bytes → InodeExtended
read_inode_extended b = record {
  format_layout = field 0 2 b;
  xattr_count = field 2 2 b;
  mode = field 4 2 b;
  size = field 8 8 b;
  info = field 16 4 b;
  ino = field 20 4 b;
  uid = field 24 4 b;
  gid = field 28 4 b;
  mtime = field 32 8 b;
  mtime_nsec = field 40 4 b;
  nlink = field 44 4 b;
}

-- With the number by which it was found.
pub data Inode : Type 0 where
  compact : ℕ → InodeCompact → Inode
  extended : ℕ → InodeExtended → Inode

unfoldable pub get_format : ℕ → ℕ
get_format format_layout = format_layout % 2

unfoldable pub get_layout : ℕ → Result Error Layout
get_layout format_layout = ok_or (layout_from ((format_layout / 2) % 8)) bad_conversion

pub data InodeType : Type 0 where
  compact_type extended_type : InodeType

-- `format | (layout << 1)`, where the bits are apart.
unfoldable pub format_layout_of : InodeType → Layout → ℕ
format_layout_of compact_type layout = 0 + 2 * layout_number layout
format_layout_of extended_type layout = 1 + 2 * layout_number layout

-- The form that the lowest bit tells: `compact` for zero.
unfoldable pub read_inode : ℕ → Bytes → Bool → Result Error Inode
read_inode disk_id bytes true = do
  struct ← ref_from_prefix inode_compact_size bytes
  ok (compact disk_id (read_inode_compact struct.0))
read_inode disk_id bytes false = do
  struct ← ref_from_prefix inode_extended_size bytes
  ok (extended disk_id (read_inode_extended struct.0))

-- `Inode::new`, in the order of its checks.
unfoldable pub new_inode : ℕ → Bytes → Result Error Inode
new_inode disk_id bytes = do
  prefix ← ref_from_prefix 2 bytes
  let format_layout = from_le_bytes prefix.0
  _ ← get_layout format_layout
  read_inode disk_id bytes (get_format format_layout == 0)

-- The kinds of file of `FileType::from_raw_mode` that the code asks for.
pub data FileType : Type 0 where
  regular dir link other : FileType

abbrev pub raw_mode : FileType → ℕ
raw_mode regular = 32768
raw_mode dir = 16384
raw_mode link = 40960
raw_mode other = 0

-- The four bits of the mode above the permissions.
unfoldable pub from_raw_mode : ℕ → FileType
from_raw_mode mode =
    let typ : ℕ = (mode / 4096) % 16 in
    if typ == 8 then regular else if typ == 4 then dir else if typ == 10 then link else other

abbrev pub mode : Inode → ℕ
mode (compact id x) = x.mode
mode (extended id x) = x.mode

abbrev pub file_type : Inode → FileType
file_type inode = from_raw_mode (mode inode)

abbrev pub data_size : Inode → ℕ
data_size (compact id x) = x.size
data_size (extended id x) = x.size

abbrev pub disk_id : Inode → ℕ
disk_id (compact id x) = id
disk_id (extended id x) = id

abbrev pub size : Inode → ℕ
size (compact id x) = inode_compact_size
size (extended id x) = inode_extended_size

abbrev pub xattr_count : Inode → ℕ
xattr_count (compact id x) = x.xattr_count
xattr_count (extended id x) = x.xattr_count

abbrev pub ino : Inode → ℕ
ino (compact id x) = x.ino
ino (extended id x) = x.ino

abbrev pub uid : Inode → ℕ
uid (compact id x) = x.uid
uid (extended id x) = x.uid

abbrev pub gid : Inode → ℕ
gid (compact id x) = x.gid
gid (extended id x) = x.gid

abbrev pub format_layout : Inode → ℕ
format_layout (compact id x) = x.format_layout
format_layout (extended id x) = x.format_layout

-- Checked in `Inode::new`; a failure is a panic.
abbrev pub layout : Inode → Result Error Layout
layout inode = get_layout (format_layout inode)

abbrev pub raw_block_addr : Inode → ℕ
raw_block_addr (compact id x) = x.info
raw_block_addr (extended id x) = x.info

abbrev pub raw_compressed_blocks : Inode → ℕ
raw_compressed_blocks inode = raw_block_addr inode

unfoldable pub known_addr : FileType → ℕ → Result Error ℕ
known_addr other addr = err not_reg_dir_link
known_addr typ addr = ok addr

abbrev pub block_addr : Inode → Result Error ℕ
block_addr inode = known_addr (file_type inode) (raw_block_addr inode)

abbrev pub link_count : Inode → ℕ
link_count (compact id x) = x.nlink
link_count (extended id x) = x.nlink
