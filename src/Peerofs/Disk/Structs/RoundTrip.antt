-- ===== src/Peerofs/Disk/Structs/RoundTrip.antt =====
-- Structures that are written and read again.
use program_explorer.Prelude.{
  ℕ, ◌^◌, ◌<◌, ◌≡◌, refl, ap, sym, ◌∙◌, append-nil, arith, false, [], ◌++◌, length, drop, ◌==◌, ltb,
  length-append, take-front, drop-front,
}
use program_explorer.Prelude.Bytes.{Bytes, to_le_bytes, from-to_le_bytes-bound}
use program_explorer.Prelude.Result.{ok}
use program_explorer.Peerofs.Disk.{
  Layout, layout_from, layout_number, flat_plain, compressed_full, flat_inline, compressed_compact,
  chunk_based, ref_from_prefix,
}
use program_explorer.Peerofs.Disk.Structs.{
  Superblock, InodeExtended, extended, superblock_bytes, read_superblock, inode_extended_bytes,
  read_inode_extended, inode_extended_size, get_format, get_layout, format_layout_of, InodeType,
  compact_type, extended_type, new_inode, read_inode, superblock_size,
}

-- Every field has a value of its width.
pub record IsInodeExtended (i : InodeExtended) : Type 0 where
  pub format_layout_lt : i.format_layout < 2 ^ 16
  pub xattr_count_lt : i.xattr_count < 2 ^ 16
  pub mode_lt : i.mode < 2 ^ 16
  pub size_lt : i.size < 2 ^ 64
  pub info_lt : i.info < 2 ^ 32
  pub ino_lt : i.ino < 2 ^ 32
  pub uid_lt : i.uid < 2 ^ 32
  pub gid_lt : i.gid < 2 ^ 32
  pub mtime_lt : i.mtime < 2 ^ 64
  pub mtime_nsec_lt : i.mtime_nsec < 2 ^ 32
  pub nlink_lt : i.nlink < 2 ^ 32

read-inode_extended_bytes :
    (i : InodeExtended) (rest : Bytes)
    → IsInodeExtended i
    → read_inode_extended (inode_extended_bytes i ++ rest) ≡ i
unfolding read_inode_extended inode_extended_bytes to_le_bytes
read-inode_extended_bytes i rest h =
    let a = from-to_le_bytes-bound 2 i.format_layout h.format_layout_lt in
    let b = from-to_le_bytes-bound 2 i.xattr_count h.xattr_count_lt in
    let c = from-to_le_bytes-bound 2 i.mode h.mode_lt in
    let d = from-to_le_bytes-bound 8 i.size h.size_lt in
    let e = from-to_le_bytes-bound 4 i.info h.info_lt in
    let f = from-to_le_bytes-bound 4 i.ino h.ino_lt in
    let g = from-to_le_bytes-bound 4 i.uid h.uid_lt in
    let k = from-to_le_bytes-bound 4 i.gid h.gid_lt in
    let l = from-to_le_bytes-bound 8 i.mtime h.mtime_lt in
    let m = from-to_le_bytes-bound 4 i.mtime_nsec h.mtime_nsec_lt in
    let n = from-to_le_bytes-bound 4 i.nlink h.nlink_lt in rw (a, b, c, d, e, f, g, k, l, m, n) refl

pub length-inode_extended_bytes :
    (i : InodeExtended) → length (inode_extended_bytes i) ≡ inode_extended_size
unfolding inode_extended_bytes to_le_bytes
length-inode_extended_bytes i = refl

pub record IsSuperblock (sb : Superblock) : Type 0 where
  pub magic_lt : sb.magic < 2 ^ 32
  pub checksum_lt : sb.checksum < 2 ^ 32
  pub blkszbits_lt : sb.blkszbits < 2 ^ 8
  pub root_disk_id_lt : sb.root_disk_id < 2 ^ 16
  pub inos_lt : sb.inos < 2 ^ 64
  pub meta_blkaddr_lt : sb.meta_blkaddr < 2 ^ 32
  pub xattr_blkaddr_lt : sb.xattr_blkaddr < 2 ^ 32

pub read-superblock_bytes :
    (sb : Superblock) (rest : Bytes)
    → IsSuperblock sb
    → read_superblock (superblock_bytes sb ++ rest) ≡ sb
unfolding read_superblock superblock_bytes to_le_bytes
read-superblock_bytes sb rest h =
    let a = from-to_le_bytes-bound 4 sb.magic h.magic_lt in
    let b = from-to_le_bytes-bound 4 sb.checksum h.checksum_lt in
    let c = from-to_le_bytes-bound 1 sb.blkszbits h.blkszbits_lt in
    let d = from-to_le_bytes-bound 2 sb.root_disk_id h.root_disk_id_lt in
    let e = from-to_le_bytes-bound 8 sb.inos h.inos_lt in
    let f = from-to_le_bytes-bound 4 sb.meta_blkaddr h.meta_blkaddr_lt in
    let g = from-to_le_bytes-bound 4 sb.xattr_blkaddr h.xattr_blkaddr_lt in
    rw (a, b, c, d, e, f, g) refl

pub length-superblock_bytes : (sb : Superblock) → length (superblock_bytes sb) ≡ superblock_size
unfolding superblock_bytes to_le_bytes
length-superblock_bytes sb = refl

-- A structure in front of other bytes.
pub ref_from_prefix-append :
    (size : ℕ) (a rest : Bytes) → size ≡ length a → ref_from_prefix size (a ++ rest) ≡ ok (a, rest)
unfolding ref_from_prefix
ref_from_prefix-append size a rest e =
    let h : ltb (length (a ++ rest)) size ≡ false = ground (arith, length-append a rest) in
    rw (h, take-front size a rest e, drop-front size a rest e) refl

pub get_layout-format_layout_of :
    (typ : InodeType) (l : Layout) → get_layout (format_layout_of typ l) ≡ ok l
unfolding get_layout format_layout_of layout_from layout_number
get_layout-format_layout_of compact_type flat_plain = refl
get_layout-format_layout_of compact_type compressed_full = refl
get_layout-format_layout_of compact_type flat_inline = refl
get_layout-format_layout_of compact_type compressed_compact = refl
get_layout-format_layout_of compact_type chunk_based = refl
get_layout-format_layout_of extended_type flat_plain = refl
get_layout-format_layout_of extended_type compressed_full = refl
get_layout-format_layout_of extended_type flat_inline = refl
get_layout-format_layout_of extended_type compressed_compact = refl
get_layout-format_layout_of extended_type chunk_based = refl

get_format-extended : (l : Layout) → (get_format (format_layout_of extended_type l) == 0) ≡ false
unfolding get_format format_layout_of
get_format-extended l = ground arith

format_layout-first :
    (i : InodeExtended) (rest : Bytes)
    → ref_from_prefix 2 (inode_extended_bytes i ++ rest)
      ≡ ok (to_le_bytes 2 i.format_layout, drop 2 (inode_extended_bytes i ++ rest))
unfolding ref_from_prefix inode_extended_bytes to_le_bytes
format_layout-first i rest =
    let h : ltb (length (inode_extended_bytes i ++ rest)) 2 ≡ false = ground arith in rw h refl

-- An inode of 64 bytes that was written is read as it was, whatever stands behind it, if each field
-- fits its width and the first field was made for that form and a layout.
pub new_inode-inode_extended_bytes :
    (id : ℕ) (i : InodeExtended) (l : Layout) (rest : Bytes)
    → IsInodeExtended i
    → i.format_layout ≡ format_layout_of extended_type l
    → new_inode id (inode_extended_bytes i ++ rest) ≡ ok (extended id i)
unfolding new_inode read_inode
new_inode-inode_extended_bytes id i l rest h e =
    let lay : get_layout i.format_layout ≡ ok l =
      rw e (get_layout-format_layout_of extended_type l) in
    let form : (get_format i.format_layout == 0) ≡ false = rw e (get_format-extended l) in
    let again : read_inode_extended (inode_extended_bytes i) ≡ i =
      ap read_inode_extended (sym (append-nil (inode_extended_bytes i)))
      ∙ read-inode_extended_bytes i [] h in
    rw
      (
        format_layout-first i rest,
        from-to_le_bytes-bound 2 i.format_layout h.format_layout_lt,
        lay,
        form,
        ref_from_prefix-append inode_extended_size (inode_extended_bytes i) rest
            (sym (length-inode_extended_bytes i)),
      )
      (ap (λ t. ok (extended id t)) again)
