-- ===== src/Peerofs/Writer/Inodes.antt =====
-- Writing inodes in peerofs/src/build.rs: `make_inode`, `make_xattr_entries`, `write_inode`, and the
-- two passes that call it. Its counts for statistics are left out; `stats` is read by nothing else.
pub mod Length
pub mod Address
pub mod Xattrs
pub mod ReadBack
use program_explorer.Prelude.{
  ℕ, ◌+◌, ◌-◌, ◌*◌, ◌/◌, ◌%◌, ◌^◌, Bool, true, false, not, Option, none, some, List, [], ◌∷◌, ◌++◌,
  map, length, drop, ◌==◌, ltb, if◌then◌else◌,
}
use program_explorer.Prelude.Bytes.{Bytes}
use program_explorer.Prelude.Result.{Result, ok, err, ◌>>=◌, ◌>>◌, ensure, ok_or, map_err}
use program_explorer.Peerofs.Blocks
use program_explorer.Peerofs.Blocks.{
  block_size, block_no, block_addr, zero_fill, addr_to_disk_id, default_block_size_bits,
  inode_alignment,
}
use program_explorer.Peerofs.Disk.{Layout, flat_inline, flat_plain}
use program_explorer.Peerofs.Disk.Structs.{
  zeros, InodeExtended, inode_extended_bytes, inode_extended_size, extended_type, format_layout_of,
  FileType, regular, dir, link, raw_mode,
}
use program_explorer.Peerofs.Disk.Attributes.{
  XattrEntry, xattr_entry_bytes, xattr_builtin_prefix, xattr_count, xattr_count_to_len,
  xattr_header_size,
}
use program_explorer.Peerofs.Writer.{
  Error, io, oob, mode_should_fit_in_u16, xattr_key_too_long, xattr_value_too_long, too_many_xattrs,
  inode_too_big, no_meta_block, addr_less_than_meta_block, addr_not_aligned, disk_id_too_big,
  already_written, Meta, File, DirInfo, Children, TreeVisitor,
}
use program_explorer.Peerofs.Writer.Entries.{Writer}

-- The bits of the kind are above those of the mode, which has twelve.
unfoldable pub make_mode : FileType → ℕ → Result Error ℕ
make_mode typ mode = do
  ensure (ltb (raw_mode typ + mode) (2 ^ 16)) mode_should_fit_in_u16
  ok (raw_mode typ + mode)

abbrev pub layout_for : Option Bytes → Layout
layout_for (some tail) = flat_inline
layout_for none = flat_plain

unfoldable pub make_inode : FileType → ℕ → ℕ → Meta → Option Bytes → ℕ → Result Error InodeExtended
make_inode typ size start_block meta tail n_links = do
  mode ← make_mode typ meta.mode
  ok (record {
    format_layout = format_layout_of extended_type (layout_for tail);
    xattr_count = 0;
    mode = mode;
    size = size;
    info = start_block;
    ino = 0;
    uid = meta.uid;
    gid = meta.gid;
    mtime = meta.mtime;
    mtime_nsec = 0;
    nlink = n_links;
  })

-- `map(|x| (x.id, x.len)).unwrap_or((0, 0))`
abbrev pub prefix_or_none : Option (ℕ × ℕ) → ℕ × ℕ
prefix_or_none none = (0, 0)
prefix_or_none (some p) = p

unfoldable pub make_xattr_entry : Bytes → Bytes → Result Error (ℕ × XattrEntry)
make_xattr_entry key value = do
  let prefix = prefix_or_none (xattr_builtin_prefix key)
  let name_len = length key - prefix.1
  ensure (ltb name_len (2 ^ 8)) xattr_key_too_long
  ensure (ltb (length value) (2 ^ 16)) xattr_value_too_long
  ok (prefix.1, record { name_len = name_len; name_index = prefix.0; value_size = length value })

-- With the lengths of the prefixes.
unfoldable pub make_xattr_entries : List (Bytes × Bytes) → Result Error (List (ℕ × XattrEntry))
make_xattr_entries [] = ok []
make_xattr_entries ((key, value) ∷ xattrs) = do
  e ← make_xattr_entry key value
  es ← make_xattr_entries xattrs
  ok (e ∷ es)

-- What is written of the attributes: each entry, the key without its prefix, the value.
unfoldable pub xattrs_body : List (ℕ × XattrEntry) → List (Bytes × Bytes) → Bytes
xattrs_body [] xattrs = []
xattrs_body (e ∷ es) [] = []
xattrs_body ((prefix_len, e) ∷ es) ((key, value) ∷ xattrs) =
    (xattr_entry_bytes e ++ (drop prefix_len key ++ value)) ++ xattrs_body es xattrs

abbrev pub entries_of : List (ℕ × XattrEntry) → List XattrEntry
entries_of es = map (λ e. e.1) es

unfoldable pub xattrs_bytes : List (ℕ × XattrEntry) → List (Bytes × Bytes) → Bytes
xattrs_bytes es [] = []
xattrs_bytes es (x ∷ xs) =
    (zeros xattr_header_size ++ xattrs_body es (x ∷ xs))
    ++ zeros (xattr_count (entries_of es)).padding

abbrev pub tail_bytes : Option Bytes → Bytes
tail_bytes none = []
tail_bytes (some tail) = tail

-- What is kept while inodes are written.
pub record InodesState (W : Type 0) : Type 0 where
  pub writer : W
  pub n_inodes : ℕ
  pub inode_addr : ℕ
  pub meta_block : Option ℕ

-- The errors of `addr_to_disk_id`
abbrev pub address_error : program_explorer.Peerofs.Blocks.Error → Error
address_error program_explorer.Peerofs.Blocks.no_meta_block = no_meta_block
address_error program_explorer.Peerofs.Blocks.addr_less_than_meta_block = addr_less_than_meta_block
address_error program_explorer.Peerofs.Blocks.addr_not_aligned = addr_not_aligned
address_error program_explorer.Peerofs.Blocks.disk_id_too_big = disk_id_too_big

abbrev pub bits : ℕ
bits = default_block_size_bits

-- `assert!(prev.is_none())` on the number that was there before.
abbrev pub is_none : Option ℕ → Bool
is_none none = true
is_none (some n) = false

module _ {W : Type 0} (w : Writer W) where
  -- An inode does not cross the end of a block: it goes to the start of the next one.
  unfoldable pub move_to_block : InodesState W → ℕ → Result Error (InodesState W)
  move_to_block s total_len =
      let next_block : ℕ = block_no bits (s.inode_addr + total_len) in
      if block_no bits s.inode_addr == next_block
      then ok s
      else (ok_or (w.write_all s.writer (zeros (zero_fill s.inode_addr (block_size bits)))) io
          >>= λ writer. ok (record s { writer = writer; inode_addr = block_addr bits next_block }))

  -- The inode, its attributes, its tail, and zeros up to the alignment.
  unfoldable pub write_parts :
      InodesState W → ℕ → Bytes → Bytes → Bytes → Result Error (InodesState W × ℕ)
  write_parts s total_len inode xattrs tail = do
    disk_id ← map_err address_error (addr_to_disk_id bits s.meta_block s.inode_addr)
    writer1 ← ok_or (w.write_all s.writer inode) io
    writer2 ← ok_or (w.write_all writer1 xattrs) io
    writer3 ← ok_or (w.write_all writer2 tail) io
    let padding = zero_fill total_len inode_alignment
    writer4 ← ok_or (w.write_all writer3 (zeros padding)) io
    ok (record s { writer = writer4; inode_addr = s.inode_addr + (total_len + padding) }, disk_id)

  -- With the entries of the attributes.
  unfoldable pub write_with :
      InodesState W
      → InodeExtended
      → Option Bytes
      → List (Bytes × Bytes)
      → List (ℕ × XattrEntry)
      → Result Error (InodesState W × ℕ)
  write_with s inode tail xattrs entries = do
    let count = (xattr_count (entries_of entries)).xattr_count
    ensure (ltb count (2 ^ 16)) too_many_xattrs
    let total_len = inode_extended_size + xattr_count_to_len count + length (tail_bytes tail)
    ensure (not (ltb (block_size bits) total_len)) inode_too_big
    moved ← move_to_block s total_len
    write_parts moved total_len (inode_extended_bytes (record inode { xattr_count = count }))
        (xattrs_bytes entries xattrs) (tail_bytes tail)

  unfoldable pub write_inode :
      InodesState W
      → InodeExtended
      → Option Bytes
      → List (Bytes × Bytes)
      → Result Error (InodesState W × ℕ)
  write_inode s inode tail xattrs = make_xattr_entries xattrs >>= λ entries.
      write_with (record s { n_inodes = s.n_inodes + 1 }) inode tail xattrs entries

  unfoldable pub write_file : FileType → InodesState W → File → Result Error (InodesState W × File)
  write_file typ s f = do
    inode ← make_inode typ f.len f.start_block f.meta f.tail f.n_links
    r ← write_inode s inode f.tail f.meta.xattrs
    ensure (is_none f.disk_id) already_written
    ok (r.0, record f { disk_id = some r.1 })

  unfoldable pub write_dir : InodesState W → DirInfo → Result Error (InodesState W × DirInfo)
  write_dir s d = do
    inode ← make_inode dir d.total_size d.start_block d.meta none 1
    r ← write_inode s inode none d.meta.xattrs
    ensure (is_none d.disk_id) already_written
    ok (r.0, record d { disk_id = some r.1 })

  -- The pass over the directories, and the one over all else.
  abbrev pub write_dir_inodes : TreeVisitor (InodesState W)
  write_dir_inodes = record {
    on_file = λ s f. ok (s, f);
    on_symlink = λ s f. ok (s, f);
    on_dir_enter = λ s d cs. write_dir s d;
    on_dir_exit = λ s d cs. ok (s, d);
  }

  abbrev pub write_file_inodes : TreeVisitor (InodesState W)
  write_file_inodes = record {
    on_file = write_file regular;
    on_symlink = write_file link;
    on_dir_enter = λ s d cs. ok (s, d);
    on_dir_exit = λ s d cs. ok (s, d);
  }
