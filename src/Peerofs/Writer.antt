-- ===== src/Peerofs/Writer.antt =====
-- The writer of peerofs/src/build.rs: the tree that is written, and the walk over it by which every
-- pass goes. `Entries` writes the entries of the directories.
pub mod Entries
pub mod Inodes
pub mod Build
pub mod Depth
pub mod Numbers
use program_explorer.Prelude.{
  ℕ, suc, ◌+◌, Bool, true, false, not, Option, none, some, List, [], ◌∷◌, ◌==◌,
}
use program_explorer.Prelude.Bytes.{Bytes}
use program_explorer.Prelude.Result.{Result, ok, err, ◌>>=◌, ◌>>◌, ensure}
use program_explorer.Peerofs.Tree
use program_explorer.Peerofs.Disk.{DirentFileType, regular_file, directory, symlink}

-- The errors of the passes, and their panics: a missing child, and an assertion.
pub data Error : Type 0 where
  io oob max_depth_exceeded no_disk_id name_offset_too_big block_no_too_big : Error
  mode_should_fit_in_u16 xattr_key_too_long xattr_value_too_long too_many_xattrs : Error
  inode_too_big no_meta_block addr_less_than_meta_block addr_not_aligned disk_id_too_big : Error
  uid_gid_too_big max_size_exceeded hardlink_not_resolved hardlink_to_dir : Error
  meta_block_too_big no_root_disk_id root_disk_id_too_big : Error
  missing_child already_written not_all_children : Error
  tree_error : program_explorer.Peerofs.Tree.Error → Error

-- The keys of `xattrs` are in the order of the map.
pub record Meta : Type 0 where
  pub uid : ℕ
  pub gid : ℕ
  pub mtime : ℕ
  pub mode : ℕ
  pub xattrs : List (Bytes × Bytes)

-- `File`, and `Symlink`, which has the same fields.
pub record File : Type 0 where
  pub meta : Meta
  pub start_block : ℕ
  pub n_links : ℕ
  pub len : ℕ
  pub tail : Option Bytes
  pub disk_id : Option ℕ

-- A directory without its children.
pub record DirInfo : Type 0 where
  pub meta : Meta
  pub disk_id : Option ℕ
  pub start_block : ℕ
  pub n_dirents_per_block : List ℕ
  pub total_size : ℕ

mutual
  pub data Dirent : Type 0 where
    file_child : File → Dirent
    dir_child : DirInfo → Children → Dirent
    symlink_child : File → Dirent
    dot dot_dot : Dirent

  -- In the order of the names.
  pub data Children : Type 0 where
    end : Children
    child : Bytes → Dirent → Children → Children

unfoldable pub file_type : Dirent → DirentFileType
file_type (file_child f) = regular_file
file_type (symlink_child s) = symlink
file_type (dir_child d cs) = directory
file_type dot = directory
file_type dot_dot = directory

abbrev pub child_list : Children → List (Bytes × Dirent)
child_list end = []
child_list (child name d cs) = (name, d) ∷ child_list cs

abbrev pub child_names : Children → List Bytes
child_names end = []
child_names (child name d cs) = name ∷ child_names cs

-- `TreeVisitor`, with the state that a visitor keeps and those parts of the tree that it can change.
pub record TreeVisitor (S : Type 0) : Type 0 where
  pub on_file : S → File → Result Error (S × File)
  pub on_symlink : S → File → Result Error (S × File)
  pub on_dir_enter : S → DirInfo → Children → Result Error (S × DirInfo)
  pub on_dir_exit : S → DirInfo → Children → Result Error (S × DirInfo)

module _ {S : Type 0} (v : TreeVisitor S) (max_depth : ℕ) where
  unfoldable mutual
    pub recur_child : ℕ → S → Dirent → Result Error (S × Dirent)
    recur_child depth s (file_child f) = v.on_file s f >>= λ r. ok (r.0, file_child r.1)
    recur_child depth s (symlink_child f) = v.on_symlink s f >>= λ r. ok (r.0, symlink_child r.1)
    recur_child depth s (dir_child d cs) = do
      ensure (not (suc depth == max_depth)) max_depth_exceeded
      entered ← v.on_dir_enter s d cs
      walked ← recur_children (suc depth) entered.0 cs
      left ← v.on_dir_exit walked.0 entered.1 walked.1
      ok (left.0, dir_child left.1 walked.1)
    recur_child depth s dot = ok (s, dot)
    recur_child depth s dot_dot = ok (s, dot_dot)

    pub recur_children : ℕ → S → Children → Result Error (S × Children)
    recur_children depth s end = ok (s, end)
    recur_children depth s (child name d cs) = do
      r ← recur_child depth s d
      rs ← recur_children depth r.0 cs
      ok (rs.0, child name r.1 rs.1)

  unfoldable pub recur : ℕ → S → DirInfo → Children → Result Error (S × DirInfo × Children)
  recur depth s d cs = do
    ensure (not (depth == max_depth)) max_depth_exceeded
    entered ← v.on_dir_enter s d cs
    walked ← recur_children depth entered.0 cs
    left ← v.on_dir_exit walked.0 entered.1 walked.1
    ok (left.0, left.1, walked.1)

  unfoldable pub walk_tree : S → DirInfo → Children → Result Error (S × DirInfo × Children)
  walk_tree s d cs = recur 0 s d cs
