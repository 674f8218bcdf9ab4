-- ===== src/Peerofs/Writer/Build.antt =====
-- `Builder` of peerofs/src/build.rs: adding entries, resolving links, and the passes in their order. An
-- error ends the build, so what the builder is then is left out; so is the flush at the end.
use program_explorer.Prelude.{
  ℕ, ◌+◌, ◌^◌, not, Option, none, some, List, [], ◌∷◌, ◌++◌, length, take, drop, ◌==◌, ltb,
  if◌then◌else◌,
}
use program_explorer.Prelude.Bytes.{Bytes}
use program_explorer.Prelude.Result.{Result, ok, err, ◌>>=◌, ◌>>◌, ensure, ok_or, map_err}
use program_explorer.Peerofs.Blocks.{size_tail_len, zero_fill, block_addr, block_size}
use program_explorer.Peerofs.Dirents
use program_explorer.Peerofs.Dirents.{prepare_dirent_data}
use program_explorer.Peerofs.Tree
use program_explorer.Peerofs.Tree.{with_children}
use program_explorer.Peerofs.Disk.Structs.{
  zeros, null_addr, superblock_bytes, erofs_super_magic_v1, erofs_super_offset,
}
use program_explorer.Peerofs.Writer.{
  Error, io, block_no_too_big, not_all_children, uid_gid_too_big, max_size_exceeded,
  hardlink_not_resolved, hardlink_to_dir, meta_block_too_big, no_root_disk_id, root_disk_id_too_big,
  tree_error, Meta, File, DirInfo, Dirent, Children, file_child, dir_child, symlink_child, dot,
  dot_dot, end, child, child_names, TreeVisitor, walk_tree,
}
use program_explorer.Peerofs.Writer.Entries.{Writer, write_dirents}
use program_explorer.Peerofs.Writer.Inodes.{write_dir_inodes, write_file_inodes, bits}

abbrev pub max_depth : ℕ
max_depth = 32

-- `Meta::default()`, with the mode 0o755.
abbrev pub default_meta : Meta
default_meta = record { uid = 0; gid = 0; mtime = 0; mode = 493; xattrs = [] }

-- `Root`
abbrev pub Root : Type 0
Root = program_explorer.Peerofs.Tree.Dir Meta File File

pub record Builder (W : Type 0) : Type 0 where
  pub root : Root
  pub increment_uid_gid : Option ℕ
  pub writer : W
  pub cur_data_block : ℕ
  pub links : List (Bytes × Bytes × Meta)
  pub max_file_size : ℕ
  pub cur_file_size : ℕ

-- `checked_add` of u32 numbers.
abbrev pub checked_add : ℕ → ℕ → Option ℕ
checked_add a b = if ltb (a + b) (2 ^ 32) then some (a + b) else none

unfoldable pub hook_meta : Option ℕ → Meta → Result Error Meta
hook_meta none meta = ok meta
hook_meta (some inc) meta = do
  uid ← ok_or (checked_add meta.uid inc) uid_gid_too_big
  gid ← ok_or (checked_add meta.gid inc) uid_gid_too_big
  ok (record meta { uid = uid; gid = gid })

-- The first of the blocks that hold bytes of a file.
unfoldable pub start_block_for : ℕ → ℕ → Result Error ℕ
start_block_for cur_data_block block_len =
    if ltb 0 block_len
    then (ensure (ltb cur_data_block (2 ^ 32)) block_no_too_big >>= λ _. ok cur_data_block)
    else ok null_addr

-- `read_exact` of the tail.
unfoldable pub read_tail : Bytes → ℕ → Result Error (Option Bytes)
read_tail contents tail_len =
    if tail_len == 0
    then ok none
    else (ensure (not (ltb (length contents) tail_len)) io >>= λ _.
        ok (some (take tail_len contents)))

-- An operation on the tree that may fail.
abbrev pub tree_result :
    Root × Result program_explorer.Peerofs.Tree.Error (Unit {0}) → Result Error Root
tree_result (root, ok u) = ok root
tree_result (root, err e) = err (tree_error e)

module _ {W : Type 0} (w : Writer W) where
  -- The bytes that go into blocks, with zeros up to the last block's end.
  unfoldable pub write_block_data : W → ℕ → Bytes → Result Error W
  write_block_data writer block_len contents =
      if ltb 0 block_len
      then (ok_or (w.write_all writer (take block_len contents)) io >>= λ writer1.
          ok_or (w.write_all writer1 (zeros (zero_fill block_len (block_size bits)))) io)
      else ok writer

  -- What `add_file` and `add_symlink` do with the bytes: the file, and the builder behind it.
  unfoldable pub write_contents : Builder W → Meta → ℕ → Bytes → Result Error (Builder W × File)
  write_contents b meta len contents = do
    let sizes = size_tail_len len bits
    start_block ← start_block_for b.cur_data_block sizes.1
    writer ← write_block_data b.writer sizes.1 contents
    tail ← read_tail (drop sizes.1 contents) sizes.2
    hooked ← hook_meta b.increment_uid_gid meta
    ok (
      record b { writer = writer; cur_data_block = b.cur_data_block + sizes.0 },
      record {
        meta = hooked;
        start_block = start_block;
        n_links = 1;
        len = len;
        tail = tail;
        disk_id = none;
      },
    )

  -- The sum in u64 stays at the largest number; it is below the limit if it is without that.
  unfoldable pub add_file : Builder W → Bytes → Meta → ℕ → Bytes → Result Error (Builder W)
  add_file b path meta len contents = do
    ensure (ltb (b.cur_file_size + len) b.max_file_size) max_size_exceeded
    r ← write_contents b meta len contents
    root ← tree_result (program_explorer.Peerofs.Tree.add_file default_meta path r.1 b.root)
    ok (record r.0 { root = root })

  unfoldable pub add_symlink : Builder W → Bytes → Bytes → Meta → Result Error (Builder W)
  add_symlink b path target meta = do
    r ← write_contents b meta (length target) target
    root ← tree_result (program_explorer.Peerofs.Tree.add_symlink default_meta path r.1 b.root)
    ok (record r.0 { root = root })

  unfoldable pub upsert_dir : Builder W → Bytes → Meta → Result Error (Builder W)
  upsert_dir b path meta = do
    hooked ← hook_meta b.increment_uid_gid meta
    root ← tree_result (program_explorer.Peerofs.Tree.upsert_dir default_meta path hooked b.root)
    ok (record b { root = root })

  -- The links are kept as they are, and resolved at the end.
  unfoldable pub add_link : Builder W → Bytes → Bytes → Meta → Builder W
  add_link b path target meta = record b { links = b.links ++ (path, target, meta) ∷ [] }

-- What a link shares with its target; the target's count of links goes up where it stands.
abbrev pub linked : File → Meta → File
linked f meta = record {
  meta = meta;
  start_block = f.start_block;
  n_links = 2;
  len = f.len;
  tail = f.tail;
  disk_id = none;
}

abbrev pub TreeDirent : Type 0
TreeDirent = program_explorer.Peerofs.Tree.Dirent Meta File File

unfoldable pub link_target : Option TreeDirent → Result Error (File × TreeDirent)
link_target none = err hardlink_not_resolved
link_target (some (program_explorer.Peerofs.Tree.file f)) =
    ok (f, program_explorer.Peerofs.Tree.file (record f { n_links = f.n_links + 1 }))
link_target (some (program_explorer.Peerofs.Tree.symlink s)) =
    ok (s, program_explorer.Peerofs.Tree.symlink (record s { n_links = s.n_links + 1 }))
link_target (some (program_explorer.Peerofs.Tree.dir d)) = err hardlink_to_dir
link_target (some program_explorer.Peerofs.Tree.here) = err hardlink_to_dir
link_target (some program_explorer.Peerofs.Tree.up) = err hardlink_to_dir

unfoldable pub resolve_link : Root → Bytes → Bytes → Meta → Result Error Root
resolve_link root path target meta = do
  found ← map_err tree_error (program_explorer.Peerofs.Tree.get target root).1
  r ← link_target found
  counted ← tree_result (program_explorer.Peerofs.Tree.insert default_meta target r.1 root)
  tree_result (program_explorer.Peerofs.Tree.add_file default_meta path (linked r.0 meta) counted)

-- In the order in which they were added.
unfoldable pub resolve_links : List (Bytes × Bytes × Meta) → Root → Result Error Root
resolve_links [] root = ok root
resolve_links ((path, target, meta) ∷ links) root =
    resolve_link root path target meta >>= resolve_links links

-- The tree with the fields that the passes fill in, as they are at first.
abbrev pub fresh_info : Meta → DirInfo
fresh_info meta = record {
  meta = meta;
  disk_id = none;
  start_block = null_addr;
  n_dirents_per_block = [];
  total_size = 0;
}

mutual
  pub fresh_dirent : TreeDirent → Dirent
  fresh_dirent (program_explorer.Peerofs.Tree.file f) = file_child f
  fresh_dirent (program_explorer.Peerofs.Tree.symlink s) = symlink_child s
  fresh_dirent (program_explorer.Peerofs.Tree.dir (with_children meta cs)) =
      dir_child (fresh_info meta) (fresh_children cs)
  fresh_dirent program_explorer.Peerofs.Tree.here = dot
  fresh_dirent program_explorer.Peerofs.Tree.up = dot_dot

  pub fresh_children : program_explorer.Peerofs.Tree.Children Meta File File → Children
  fresh_children program_explorer.Peerofs.Tree.end = end
  fresh_children (program_explorer.Peerofs.Tree.child name d cs) =
      child name (fresh_dirent d) (fresh_children cs)

pub record PrepareState : Type 0 where
  pub n_dirs : ℕ
  pub cur_data_block : ℕ

abbrev pub placement_error : program_explorer.Peerofs.Dirents.Failure → Error
placement_error program_explorer.Peerofs.Dirents.block_no_too_big = block_no_too_big
placement_error program_explorer.Peerofs.Dirents.not_all_children = not_all_children

-- Blocks are set apart for the entries of a directory.
unfoldable pub prepare_dir :
    PrepareState → DirInfo → Children → Result Error (PrepareState × DirInfo)
prepare_dir s d cs = do
  r ← map_err placement_error (
      prepare_dirent_data (child_names cs) (block_size bits) s.cur_data_block (record {
        start_block = d.start_block;
        n_dirents_per_block = d.n_dirents_per_block;
        total_size = d.total_size;
      }))
  ok (
    record { n_dirs = s.n_dirs + 1; cur_data_block = s.cur_data_block + r.0 },
    record d {
      start_block = r.1.start_block;
      n_dirents_per_block = r.1.n_dirents_per_block;
      total_size = r.1.total_size;
    },
  )

abbrev pub prepare_dirents : TreeVisitor PrepareState
prepare_dirents = record {
  on_file = λ s f. ok (s, f);
  on_symlink = λ s f. ok (s, f);
  on_dir_enter = prepare_dir;
  on_dir_exit = λ s d cs. ok (s, d);
}

module _ {W : Type 0} (w : Writer W) where
  -- The passes: blocks for the entries, the inodes of the directories, those of all else, and the
  -- entries, which have the numbers now.
  unfoldable pub write_inodes :
      W → ℕ → DirInfo → Children → Result Error (W × ℕ × ℕ × DirInfo × Children)
  write_inodes writer cur_data_block d cs = do
    placed ←
        walk_tree prepare_dirents max_depth (record { n_dirs = 0; cur_data_block = cur_data_block })
          d cs
    let meta_block = placed.0.cur_data_block
    let inode_addr = block_addr bits meta_block
    writer1 ← ok_or (w.seek writer inode_addr) io
    dirs ←
        walk_tree (write_dir_inodes w) max_depth
          (record {
            writer = writer1;
            n_inodes = 0;
            inode_addr = inode_addr;
            meta_block = some meta_block;
          })
          placed.1 placed.2
    files ← walk_tree (write_file_inodes w) max_depth dirs.0 dirs.1 dirs.2
    done ←
        walk_tree (write_dirents w) max_depth
          (record { writer = files.0.writer; cur_data_block = meta_block; parents = [] }) files.1
          files.2
    ok (done.0.writer, files.0.n_inodes, meta_block, done.1, done.2)

  unfoldable pub write_root : W → ℕ → Root → Result Error (W × ℕ × ℕ × DirInfo × Children)
  write_root writer cur_data_block (with_children meta cs) =
      write_inodes writer cur_data_block (fresh_info meta) (fresh_children cs)

  unfoldable pub write_superblock : W → ℕ → ℕ → Option ℕ → Result Error W
  write_superblock writer n_inodes meta_block root_disk_id = do
    ensure (ltb meta_block (2 ^ 32)) meta_block_too_big
    id ← ok_or root_disk_id no_root_disk_id
    ensure (ltb id (2 ^ 16)) root_disk_id_too_big
    writer1 ← ok_or (w.seek writer erofs_super_offset) io
    ok_or
        (w.write_all writer1 (
          superblock_bytes (record {
            magic = erofs_super_magic_v1;
            checksum = 0;
            blkszbits = bits;
            root_disk_id = id;
            inos = n_inodes;
            meta_blkaddr = meta_block;
            xattr_blkaddr = 0;
          })))
        io

  -- `finalize`, and with it `into_inner`.
  unfoldable pub finalize : Builder W → Result Error W
  finalize b = do
    root ← resolve_links b.links b.root
    r ← write_root b.writer b.cur_data_block root
    write_superblock r.0 r.1 r.2 r.3.disk_id
