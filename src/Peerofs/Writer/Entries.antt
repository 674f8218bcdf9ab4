-- ===== src/Peerofs/Writer/Entries.antt =====
-- `BuilderTreeVisitorWriteDirents` of peerofs/src/build.rs: the entries of a directory go into the
-- blocks that were set apart for them. The writer is any writer and seeker.
pub mod Written
pub mod Reading
pub mod Steps
pub mod ReadBack
pub mod WholeDirectory
use program_explorer.Prelude.{
  ℕ, zero, suc, ◌+◌, ◌-◌, ◌*◌, ◌%◌, ◌^◌, ◌≡◌, Bool, Option, none, some, List, [], ◌∷◌, ◌++◌, length,
  ◌==◌, ltb, if◌then◌else◌,
}
use program_explorer.Prelude.Bytes.{Bytes}
use program_explorer.Prelude.Result.{Result, ok, err, ◌>>=◌, ◌>>◌, ensure, ok_or}
use program_explorer.Peerofs.Blocks.{block_size, default_block_size_bits, zero_fill, block_addr}
use program_explorer.Peerofs.Disk.{DirentFileType, file_type_number}
use program_explorer.Peerofs.Disk.Structs.{zeros}
use program_explorer.Peerofs.Disk.Entries.{dirent_bytes, dirent_size}
use program_explorer.Peerofs.Writer.{
  Error, io, no_disk_id, name_offset_too_big, missing_child, File, DirInfo, Dirent, Children,
  file_child, symlink_child, dir_child, dot, dot_dot, file_type, child_list, TreeVisitor,
}

-- `write_all` and `seek(SeekFrom::Start(..))`
pub record Writer (W : Type 0) : Type 0 where
  pub write_all : W → Bytes → Option W
  pub seek : W → ℕ → Option W

-- `parents.last().or(dir.disk_id)`, with the last parent in front.
abbrev pub parent_id : List ℕ → Option ℕ → Option ℕ
parent_id [] own = own
parent_id (p ∷ ps) own = some p

unfoldable pub child_id : List ℕ → Option ℕ → Dirent → Option ℕ
child_id parents own (file_child f) = f.disk_id
child_id parents own (dir_child d cs) = d.disk_id
child_id parents own (symlink_child f) = f.disk_id
child_id parents own dot = own
child_id parents own dot_dot = parent_id parents own

module _ {W : Type 0} (w : Writer W) (parents : List ℕ) (own : Option ℕ) where
  -- One entry: it is written, and its name is kept for later.
  unfoldable pub write_entry : W → ℕ → Bytes → Bytes → Dirent → Result Error (W × Bytes)
  write_entry writer name_offset name_buf name entry = do
    disk_id ← ok_or (child_id parents own entry) no_disk_id
    ensure (ltb name_offset (2 ^ 16)) name_offset_too_big
    writer' ←
        ok_or
          (w.write_all writer (
            dirent_bytes (record {
              disk_id = disk_id;
              name_offset = name_offset;
              file_type = file_type_number (file_type entry);
            })))
          io
    ok (writer', name_buf ++ name)

  -- The entries of a block, and the children that are left.
  unfoldable pub write_entries :
      ℕ → W → ℕ → Bytes → List (Bytes × Dirent) → Result Error (W × Bytes × List (Bytes × Dirent))
  write_entries zero writer name_offset name_buf children = ok (writer, name_buf, children)
  write_entries (suc count) writer name_offset name_buf [] = err missing_child
  write_entries (suc count) writer name_offset name_buf ((name, entry) ∷ children) = do
    r ← write_entry writer name_offset name_buf name entry
    write_entries count r.0 (name_offset + length name) r.1 children

  -- A block: the entries, their names, and zeros up to the block's end.
  unfoldable pub write_block :
      ℕ → W → List (Bytes × Dirent) → Result Error (W × List (Bytes × Dirent))
  write_block count writer children = do
    r ← write_entries count writer (count * dirent_size) [] children
    writer1 ← ok_or (w.write_all r.0 r.1) io
    let written = count * dirent_size + length r.1
    writer2 ←
        ok_or (w.write_all writer1 (zeros (zero_fill written (block_size default_block_size_bits))))
          io
    ok (writer2, r.2)

  unfoldable pub write_blocks :
      List ℕ → W → List (Bytes × Dirent) → Result Error (W × List (Bytes × Dirent))
  write_blocks [] writer children = ok (writer, children)
  write_blocks (count ∷ counts) writer children = do
    r ← write_block count writer children
    write_blocks counts r.0 r.1

-- `seek_block`: no seek where the writer stands at the block already.
unfoldable pub seek_block : {W : Type 0} → Writer W → W → ℕ → ℕ → Result Error W
seek_block w writer cur_data_block block =
    if cur_data_block == block
    then ok writer
    else ok_or (w.seek writer (block_addr default_block_size_bits block)) io

-- What the pass keeps: the writer, the block it stands at, and the directories around, the last in
-- front.
pub record DirentsState (W : Type 0) : Type 0 where
  pub writer : W
  pub cur_data_block : ℕ
  pub parents : List ℕ

abbrev pub pop : List ℕ → List ℕ
pop [] = []
pop (p ∷ ps) = ps

module _ {W : Type 0} (w : Writer W) where
  unfoldable pub dirents_on_dir_enter :
      DirentsState W → DirInfo → Children → Result Error (DirentsState W × DirInfo)
  dirents_on_dir_enter s d cs = do
    writer ← seek_block w s.writer s.cur_data_block d.start_block
    r ← write_blocks w s.parents d.disk_id d.n_dirents_per_block writer (child_list cs)
    disk_id ← ok_or d.disk_id no_disk_id
    ok (
      record {
        writer = r.0;
        cur_data_block = d.start_block + length d.n_dirents_per_block;
        parents = disk_id ∷ s.parents;
      },
      d,
    )

  -- `parents.pop()`
  unfoldable pub dirents_on_dir_exit :
      DirentsState W → DirInfo → Children → Result Error (DirentsState W × DirInfo)
  dirents_on_dir_exit s d cs = ok (record s { parents = pop s.parents }, d)

module _ {W : Type 0} (w : Writer W) where
  abbrev pub write_dirents : TreeVisitor (DirentsState W)
  write_dirents = record {
    on_file = λ s f. ok (s, f);
    on_symlink = λ s f. ok (s, f);
    on_dir_enter = dirents_on_dir_enter w;
    on_dir_exit = dirents_on_dir_exit w;
  }
