-- ===== src/Peerofs/Disk.antt =====
-- peerofs/src/disk.rs, the reader of erofs images: its errors, the slices of the image, and the small
-- numbers that stand for layouts, compressions and kinds of entries. `Cluster` is the header of a
-- compressed file, `Structs` the structures on the disk, `Entries` the entries of a directory,
-- `Attributes` the extended attributes, `Image` the access to an image, `Compressed` the compressed
-- files.
pub mod Structs
pub mod Entries
pub mod Attributes
pub mod Image
use program_explorer.Prelude.{
  ℕ, ◌+◌, ◌-◌, ◌*◌, ◌/◌, ◌%◌, ◌^◌, ◌<◌, ◌≤◌, ◌≡◌, refl, arith, Bool, true, false, not, ◌||◌, Option,
  none, some, List, [], ◌∷◌, length, take, drop, ◌==◌, ltb, if◌then◌else◌,
}
use program_explorer.Prelude.Bytes.{Bytes, from_le_bytes}
use program_explorer.Prelude.Result.{Result, ok, err, ◌>>=◌, ◌>>◌, ensure, ok_or}

pub data Layout : Type 0 where
  flat_plain compressed_full flat_inline compressed_compact chunk_based : Layout

pub data CompressionType : Type 0 where
  lz4 lzma deflate zstd : CompressionType

pub data DirentFileType : Type 0 where
  unknown regular_file directory character_device block_device fifo socket symlink : DirentFileType

pub data Error : Type 0 where
  bad_superblock bad_magic bad_conversion bad_c_str oob not_dir not_symlink not_reg_dir_link : Error
  dirent_bad_size bad_file_type inode_too_big not_expecting_block_data : Error
  block_len_should_be_zero not_compressed not_compressed_full invalid_xattr_prefix : Error
  builtin_prefix_too_big xattr_prefix_table_not_handled decompress lci_malformed write : Error
  underflow unknown_compression head2_not_supported : Error
  compression_not_supported : CompressionType → Error
  layout_not_handled : Layout → Error

-- `try_from` a u16.
unfoldable pub layout_from : ℕ → Option Layout
layout_from n =
    if n == 0
    then some flat_plain
    else if n == 1
    then some compressed_full
    else if n == 2
    then some flat_inline
    else if n == 3
    then some compressed_compact
    else if n == 4
    then some chunk_based
    else none

-- `layout as u16`
unfoldable pub layout_number : Layout → ℕ
layout_number flat_plain = 0
layout_number compressed_full = 1
layout_number flat_inline = 2
layout_number compressed_compact = 3
layout_number chunk_based = 4

abbrev pub is_compressed : Layout → Bool
is_compressed compressed_full = true
is_compressed compressed_compact = true
is_compressed layout = false

unfoldable pub compression_from : ℕ → Result Error CompressionType
compression_from n =
    if n == 0
    then ok lz4
    else if n == 1
    then ok lzma
    else if n == 2
    then ok deflate
    else if n == 3
    then ok zstd
    else err unknown_compression

unfoldable pub file_type_from : ℕ → Result Error DirentFileType
file_type_from n =
    if n == 0
    then ok unknown
    else if n == 1
    then ok regular_file
    else if n == 2
    then ok directory
    else if n == 3
    then ok character_device
    else if n == 4
    then ok block_device
    else if n == 5
    then ok fifo
    else if n == 6
    then ok socket
    else if n == 7
    then ok symlink
    else err bad_file_type

-- `child.file_type() as u8`
unfoldable pub file_type_number : DirentFileType → ℕ
file_type_number unknown = 0
file_type_number regular_file = 1
file_type_number directory = 2
file_type_number character_device = 3
file_type_number block_device = 4
file_type_number fifo = 5
file_type_number socket = 6
file_type_number symlink = 7

-- `data.get(offset..).ok_or(Error::Oob)?` and `data.get(start..end).ok_or(Error::Oob)?`
unfoldable pub get_from : Bytes → ℕ → Result Error Bytes
get_from bytes offset = ensure (not (ltb (length bytes) offset)) oob >>= λ _. ok (drop offset bytes)

unfoldable pub get_range : Bytes → ℕ → ℕ → Result Error Bytes
get_range bytes start stop = ensure (not (ltb stop start || ltb (length bytes) stop)) oob >>= λ _.
    ok (take (stop - start) (drop start bytes))

-- `try_ref_from_prefix` of a structure of `size` bytes: those bytes, and what is behind them.
unfoldable pub ref_from_prefix : ℕ → Bytes → Result Error (Bytes × Bytes)
ref_from_prefix size bytes = ensure (not (ltb (length bytes) size)) bad_conversion >>= λ _.
    ok (take size bytes, drop size bytes)

-- A field of `size` bytes at `offset` in a structure.
abbrev pub field : ℕ → ℕ → Bytes → ℕ
field offset size bytes = from_le_bytes (take size (drop offset bytes))

unfoldable pub div_mod_u16 : ℕ → ℕ → ℕ × ℕ
div_mod_u16 a b = (a / b, a % b)

-- `round_up_to::<N>`, by `div_ceil`; zero goes up to N.
unfoldable pub round_up_to : ℕ → ℕ → ℕ
round_up_to n x = if x == 0 then n else ((x + (n - 1)) / n) * n

unfoldable pub compute_block_tail_len : ℕ → ℕ → ℕ × ℕ
compute_block_tail_len block_size size =
    let block_len : ℕ = (size / block_size) * block_size in (block_len, size - block_len)
