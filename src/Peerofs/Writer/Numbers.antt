-- ===== src/Peerofs/Writer/Numbers.antt =====
-- What a walk makes of all directories and files, and that the passes give each its number.
use program_explorer.Prelude.{ℕ, suc, not, Option, none, some, List, [], ◌∷◌, ◌==◌}
use program_explorer.Prelude.Result.{Result, ok, err, ◌>>=◌, IfOk, IfOk-bind, IfOk-ensure}
use program_explorer.Peerofs.Disk.Structs.{FileType, dir, regular, link}
use program_explorer.Peerofs.Writer.{
  Error, max_depth_exceeded, already_written, File, DirInfo, Dirent, Children, file_child,
  dir_child, symlink_child, dot, dot_dot, end, child, TreeVisitor, recur, recur_child,
  recur_children, walk_tree,
}
use program_explorer.Peerofs.Writer.Entries.{Writer, child_id}
use program_explorer.Peerofs.Writer.Inodes.{
  InodesState, make_inode, write_inode, write_file, write_dir, write_dir_inodes, write_file_inodes,
  is_none,
}

-- Every directory below satisfies `D`, and every file and symbolic link `F`.
module _ (D : DirInfo → Type 0) (F : File → Type 0) where
  mutual
    pub AllDirent : Dirent → Type 0
    AllDirent (file_child f) = F f
    AllDirent (symlink_child f) = F f
    AllDirent (dir_child d cs) = D d × AllChildren cs
    AllDirent dot = Unit
    AllDirent dot_dot = Unit

    pub AllChildren : Children → Type 0
    AllChildren end = Unit
    AllChildren (child name d cs) = AllDirent d × AllChildren cs

-- A visitor that makes `D'` and `F'` of `D` and `F`.
pub record Makes {S : Type 0} (v : TreeVisitor S) (D D' : DirInfo → Type 0) (F F' : File → Type 0)
    : Type 0 where
  pub file_made : (s : S) (f : File) → F f → IfOk (λ r. F' r.1) (v.on_file s f)
  pub symlink_made : (s : S) (f : File) → F f → IfOk (λ r. F' r.1) (v.on_symlink s f)
  pub enter_made :
      (s : S) (d : DirInfo) (cs : Children) → D d → IfOk (λ r. D' r.1) (v.on_dir_enter s d cs)
  pub exit_made :
      (s : S) (d : DirInfo) (cs : Children) → D' d → IfOk (λ r. D' r.1) (v.on_dir_exit s d cs)

module _ {S : Type 0} (v : TreeVisitor S) (D D' : DirInfo → Type 0) (F F' : File → Type 0)
    (m : Makes v D D' F F') (max_depth : ℕ) where
  mutual
    unfolding recur_child recur_children AllDirent AllChildren

    AllDirent-recur_child :
        (d : Dirent) (depth : ℕ) (s : S)
        → AllDirent D F d
        → IfOk (λ r. AllDirent D' F' r.1) (recur_child v max_depth depth s d)
    AllDirent-recur_child (file_child f) depth s h =
        IfOk-bind (λ r. F' r.1) (λ r. AllDirent D' F' r.1) (v.on_file s f) (λ r. _)
          (m.file_made s f h) (λ r k. k)
    AllDirent-recur_child (symlink_child f) depth s h =
        IfOk-bind (λ r. F' r.1) (λ r. AllDirent D' F' r.1) (v.on_symlink s f) (λ r. _)
          (m.symlink_made s f h) (λ r k. k)
    AllDirent-recur_child (dir_child d cs) depth s h =
        IfOk-ensure (λ r. AllDirent D' F' r.1) (not (suc depth == max_depth)) max_depth_exceeded _
          (IfOk-bind (λ r. D' r.1) (λ r. AllDirent D' F' r.1) (v.on_dir_enter s d cs) (λ r. _)
            (m.enter_made s d cs h.0)
            (λ entered k.
              IfOk-bind (λ r. AllChildren D' F' r.1) (λ r. AllDirent D' F' r.1)
                (recur_children v max_depth (suc depth) entered.0 cs) (λ r. _)
                (AllChildren-recur_children cs (suc depth) entered.0 h.1)
                (λ walked l.
                  IfOk-bind (λ r. D' r.1) (λ r. AllDirent D' F' r.1)
                    (v.on_dir_exit walked.0 entered.1 walked.1) (λ r. _)
                    (m.exit_made walked.0 entered.1 walked.1 k) (λ left n. (n, l)))))
    AllDirent-recur_child dot depth s h = tt
    AllDirent-recur_child dot_dot depth s h = tt

    AllChildren-recur_children :
        (cs : Children) (depth : ℕ) (s : S)
        → AllChildren D F cs
        → IfOk (λ r. AllChildren D' F' r.1) (recur_children v max_depth depth s cs)
    AllChildren-recur_children end depth s h = tt
    AllChildren-recur_children (child name d cs) depth s h =
        IfOk-bind (λ r. AllDirent D' F' r.1) (λ r. AllChildren D' F' r.1)
          (recur_child v max_depth depth s d) (λ r. _) (AllDirent-recur_child d depth s h.0)
          (λ r k.
            IfOk-bind (λ q. AllChildren D' F' q.1) (λ q. AllChildren D' F' q.1)
              (recur_children v max_depth depth r.0 cs) (λ q. _)
              (AllChildren-recur_children cs depth r.0 h.1) (λ q l. (k, l)))

  pub AllChildren-walk_tree :
      (d : DirInfo) (cs : Children) (s : S)
      → D d
      → AllChildren D F cs
      → IfOk (λ r. D' r.1 × AllChildren D' F' r.2) (walk_tree v max_depth s d cs)
  unfolding walk_tree recur
  AllChildren-walk_tree d cs s h k =
      IfOk-ensure (λ r. D' r.1 × AllChildren D' F' r.2) (not (0 == max_depth)) max_depth_exceeded _
        (IfOk-bind (λ r. D' r.1) (λ r. D' r.1 × AllChildren D' F' r.2) (v.on_dir_enter s d cs)
          (λ r. _) (m.enter_made s d cs h)
          (λ entered l.
            IfOk-bind (λ r. AllChildren D' F' r.1) (λ r. D' r.1 × AllChildren D' F' r.2)
              (recur_children v max_depth 0 entered.0 cs) (λ r. _)
              (AllChildren-recur_children cs 0 entered.0 k)
              (λ walked n.
                IfOk-bind (λ r. D' r.1) (λ r. D' r.1 × AllChildren D' F' r.2)
                  (v.on_dir_exit walked.0 entered.1 walked.1) (λ r. _)
                  (m.exit_made walked.0 entered.1 walked.1 l) (λ left o. (o, n)))))

abbrev pub HasNumber : Option ℕ → Type 0
HasNumber none = ⊥
HasNumber (some id) = Unit

abbrev pub DirHasNumber : DirInfo → Type 0
DirHasNumber d = HasNumber d.disk_id

abbrev pub FileHasNumber : File → Type 0
FileHasNumber f = HasNumber f.disk_id

abbrev Anything : {A : Type 0} → A → Type 0
Anything a = Unit

-- A chain whose last part satisfies the predicate.
IfOk-last :
    {A B : Type 0} (P : B → Type 0) (r : Result Error A) (f : A → Result Error B)
    → ((a : A) → IfOk P (f a))
    → IfOk P (r >>= f)
IfOk-last P (ok a) f h = h a
IfOk-last P (err e) f h = tt

module _ {W : Type 0} (w : Writer W) where
  write_file-number :
      (typ : FileType) (s : InodesState W) (f : File)
      → IfOk (λ r. FileHasNumber r.1) (write_file w typ s f)
  unfolding write_file
  write_file-number typ s f =
      let P : InodesState W × File → Type 0 = λ r. FileHasNumber r.1 in
      IfOk-last P (make_inode typ f.len f.start_block f.meta f.tail f.n_links) (λ inode. _)
        (λ inode.
          IfOk-last P (write_inode w s inode f.tail f.meta.xattrs) (λ r. _)
            (λ r. IfOk-ensure P (is_none f.disk_id) already_written _ tt))

  write_dir-number :
      (s : InodesState W) (d : DirInfo) → IfOk (λ r. DirHasNumber r.1) (write_dir w s d)
  unfolding write_dir
  write_dir-number s d =
      let P : InodesState W × DirInfo → Type 0 = λ r. DirHasNumber r.1 in
      IfOk-last P (make_inode dir d.total_size d.start_block d.meta none 1) (λ inode. _)
        (λ inode.
          IfOk-last P (write_inode w s inode none d.meta.xattrs) (λ r. _)
            (λ r. IfOk-ensure P (is_none d.disk_id) already_written _ tt))

  Makes-write_dir_inodes : Makes (write_dir_inodes w) Anything DirHasNumber Anything Anything
  Makes-write_dir_inodes = record {
    file_made = λ s f h. tt;
    symlink_made = λ s f h. tt;
    enter_made = λ s d cs h. write_dir-number s d;
    exit_made = λ s d cs h. h;
  }

  Makes-write_file_inodes :
      Makes (write_file_inodes w) DirHasNumber DirHasNumber Anything FileHasNumber
  Makes-write_file_inodes = record {
    file_made = λ s f h. write_file-number regular s f;
    symlink_made = λ s f h. write_file-number link s f;
    enter_made = λ s d cs h. h;
    exit_made = λ s d cs h. h;
  }

mutual
  unfolding AllDirent AllChildren

  AllDirent-Anything : (d : Dirent) → AllDirent Anything Anything d
  AllDirent-Anything (file_child f) = tt
  AllDirent-Anything (symlink_child f) = tt
  AllDirent-Anything (dir_child d cs) = (tt, AllChildren-Anything cs)
  AllDirent-Anything dot = tt
  AllDirent-Anything dot_dot = tt

  AllChildren-Anything : (cs : Children) → AllChildren Anything Anything cs
  AllChildren-Anything end = tt
  AllChildren-Anything (child name d cs) = (AllDirent-Anything d, AllChildren-Anything cs)

-- Where both passes over the inodes succeed, on any tree, from any state and with any writer, the root
-- has a number then, and so has every directory, every file and every symbolic link below it.
pub write_inodes-AllNumbers :
    {W : Type 0} (w : Writer W) (max_depth : ℕ) (s : InodesState W) (d : DirInfo) (cs : Children)
    → IfOk
        (λ r. DirHasNumber r.1 × AllChildren DirHasNumber FileHasNumber r.2)
        (walk_tree (write_dir_inodes w) max_depth s d cs >>= λ dirs.
          walk_tree (write_file_inodes w) max_depth dirs.0 dirs.1 dirs.2)
write_inodes-AllNumbers w max_depth s d cs =
    IfOk-bind (λ r. DirHasNumber r.1 × AllChildren DirHasNumber Anything r.2)
      (λ r. DirHasNumber r.1 × AllChildren DirHasNumber FileHasNumber r.2)
      (walk_tree (write_dir_inodes w) max_depth s d cs) (λ dirs. _)
      (AllChildren-walk_tree (write_dir_inodes w) Anything DirHasNumber Anything Anything
        (Makes-write_dir_inodes w) max_depth d cs s tt (AllChildren-Anything cs))
      (λ dirs h.
        AllChildren-walk_tree (write_file_inodes w) DirHasNumber DirHasNumber Anything FileHasNumber
          (Makes-write_file_inodes w) max_depth dirs.1 dirs.2 dirs.0 h.0 h.1)

-- With the numbers of the directory and of what is below it, an entry has a number in every case.
pub child_id-HasNumber :
    (parents : List ℕ) (own : Option ℕ) (d : Dirent)
    → HasNumber own
    → AllDirent DirHasNumber FileHasNumber d
    → HasNumber (child_id parents own d)
unfolding child_id AllDirent
child_id-HasNumber parents own (file_child f) h k = k
child_id-HasNumber parents own (symlink_child f) h k = k
child_id-HasNumber parents own (dir_child d cs) h k = k.0
child_id-HasNumber parents own dot h k = h
child_id-HasNumber [] own dot_dot h k = h
child_id-HasNumber (p ∷ ps) own dot_dot h k = tt
