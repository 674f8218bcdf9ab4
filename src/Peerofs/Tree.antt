-- ===== src/Peerofs/Tree.antt =====
-- The tree of directories of peerofs/src/build.rs: `Root` and `Dir`, with a directory's entries in the
-- order of their names. An operation gives the tree as it is afterwards also where it fails, since the
-- directories that it created on the way stay.
pub mod Found
use program_explorer.Prelude.{
  ℕ, Bool, true, false, Option, none, some, List, [], ◌∷◌, ◌==◌, ◌||◌, if◌then◌else◌,
}
use program_explorer.Prelude.Bytes.{Bytes, bytes_eq, codes}
use program_explorer.Prelude.Result.{Result, ok, err}
use program_explorer.PathBuf.{slash, dot}
use program_explorer.PathBuf.Components.{
  Component, prefix, root_dir, cur_dir, parent_dir, normal, components,
}
use program_explorer.Squash.Order.{bytes_lt}

pub data Error : Type 0 where
  empty_path weird_path path_with_dot_dot unhandled_prefix_component : Error
  not_a_dir insert_failed path_trailing_slash : Error

-- `M` is a directory's metadata, `F` and `S` are files and symbolic links.
mutual
  pub data Dirent (M F S : Type 0) : Type 0 where
    file : F → Dirent M F S
    symlink : S → Dirent M F S
    dir : Dir M F S → Dirent M F S
    here up : Dirent M F S

  pub data Dir (M F S : Type 0) : Type 0 where
    with_children : M → Children M F S → Dir M F S

  pub data Children (M F S : Type 0) : Type 0 where
    end : Children M F S
    child : Bytes → Dirent M F S → Children M F S → Children M F S

-- The directory behind an operation and what the operation returns.
abbrev pub Done : Type 0 → Type 0 → Type 0 → Type 0 → Type 0
Done M F S A = Dir M F S × Result Error A

-- `.`, `./` and `/` are the root.
abbrev pub is_root : Bytes → Bool
is_root path = bytes_eq path (codes ".") || bytes_eq path (codes "./") || bytes_eq path (codes "/")

unfoldable pub ends_with_slash : Bytes → Bool
ends_with_slash [] = false
ends_with_slash (b ∷ []) = b == slash
ends_with_slash (b ∷ c ∷ p) = ends_with_slash (c ∷ p)

module _ {M F S : Type 0} (default_meta : M) where
  -- `Dir::default()`
  abbrev pub default_dir : Dir M F S
  default_dir = with_children default_meta (child (codes ".") here (child (codes "..") up end))

module _ {M F S : Type 0} where
  unfoldable pub find : Bytes → Children M F S → Option (Dirent M F S)
  find name end = none
  find name (child key d cs) = if bytes_eq key name then some d else find name cs

  -- `BTreeMap::insert`
  unfoldable pub put : Bytes → Dirent M F S → Children M F S → Children M F S
  put name e end = child name e end
  put name e (child key d cs) =
      let rest = put name e cs in
      if bytes_eq key name
      then child key e cs
      else if bytes_lt name key
      then child name e (child key d cs)
      else child key d rest

  abbrev pub children : Dir M F S → Children M F S
  children (with_children m cs) = cs

  unfoldable pub set_meta : M → Dir M F S → Dir M F S
  set_meta meta (with_children m cs) = with_children meta cs

  unfoldable pub put_in : Bytes → Dirent M F S → Dir M F S → Dir M F S
  put_in name e (with_children m cs) = with_children m (put name e cs)

  -- The result of a child directory, put back into its parent.
  abbrev pub put_back : {A : Type 0} → Bytes → Dir M F S → Done M F S A → Done M F S A
  put_back name parent (d, r) = (put_in name (dir d) parent, r)

  unfoldable pub enter_found :
      {A : Type 0}
      → Option (Dir M F S)
      → Bytes
      → Dir M F S
      → (Dir M F S → Done M F S A)
      → Option (Dirent M F S)
      → Done M F S A
  enter_found create name parent f (some (dir d)) = put_back name parent (f d)
  enter_found create name parent f (some (file x)) = (parent, err not_a_dir)
  enter_found create name parent f (some (symlink x)) = (parent, err not_a_dir)
  enter_found create name parent f (some here) = (parent, err not_a_dir)
  enter_found create name parent f (some up) = (parent, err not_a_dir)
  enter_found (some fresh) name parent f none = put_back name parent (f fresh)
  enter_found none name parent f none = (parent, err not_a_dir)

  -- `get_or_create_dir` with a fresh directory, `get_dir` without one.
  unfoldable pub enter :
      {A : Type 0}
      → Option (Dir M F S)
      → Bytes
      → Dir M F S
      → (Dir M F S → Done M F S A)
      → Done M F S A
  unfolding find
  enter create name parent f = enter_found create name parent f (find name (children parent))

  -- The loop of `lookup_impl`; `f` is what is done at the directory and the name it ends with.
  unfoldable pub descend :
      {A : Type 0}
      → Option (Dir M F S)
      → List Component
      → (Option Bytes → Dir M F S → Done M F S A)
      → Dir M F S
      → Done M F S A
  descend create [] f d = f none d
  descend create (normal name ∷ []) f d = f (some name) d
  descend create (cur_dir ∷ []) f d = f none d
  descend create (prefix ∷ []) f d = (d, err weird_path)
  descend create (root_dir ∷ []) f d = (d, err weird_path)
  descend create (parent_dir ∷ []) f d = (d, err weird_path)
  descend create (cur_dir ∷ p ∷ ps) f d = descend create (p ∷ ps) f d
  descend create (root_dir ∷ p ∷ ps) f d = descend create (p ∷ ps) f d
  descend create (prefix ∷ p ∷ ps) f d = (d, err unhandled_prefix_component)
  descend create (parent_dir ∷ p ∷ ps) f d = (d, err path_with_dot_dot)
  descend create (normal name ∷ p ∷ ps) f d = enter create name d (descend create (p ∷ ps) f)

  unfoldable pub lookup_impl :
      {A : Type 0}
      → Option (Dir M F S)
      → Bytes
      → (Option Bytes → Dir M F S → Done M F S A)
      → Dir M F S
      → Done M F S A
  lookup_impl create path f root =
      if bytes_eq path []
      then (root, err empty_path)
      else if is_root path
      then f none root
      else descend create (components path) f root

  abbrev pub insert_entry : Dirent M F S → Option Bytes → Dir M F S → Done M F S (Unit {0})
  insert_entry e none d = (d, err insert_failed)
  insert_entry e (some name) d = (put_in name e d, ok tt)

  abbrev pub get_entry : Option Bytes → Dir M F S → Done M F S (Option (Dirent M F S))
  get_entry none d = (d, ok none)
  get_entry (some name) d = (d, ok (find name (children d)))

  unfoldable pub get : Bytes → Dir M F S → Done M F S (Option (Dirent M F S))
  get path root = lookup_impl none path get_entry root

module _ {M F S : Type 0} (default_meta : M) where
  unfoldable pub insert : Bytes → Dirent M F S → Dir M F S → Dir M F S × Result Error (Unit {0})
  insert path e root = lookup_impl (some (default_dir default_meta)) path (insert_entry e) root

  abbrev pub upsert_entry : M → Option Bytes → Dir M F S → Dir M F S × Result Error (Unit {0})
  upsert_entry meta none d = (set_meta meta d, ok tt)
  upsert_entry meta (some name) d =
      enter (some (default_dir default_meta)) name d (λ x. (set_meta meta x, ok tt))

  unfoldable pub upsert_dir : Bytes → M → Dir M F S → Dir M F S × Result Error (Unit {0})
  upsert_dir path meta root =
      lookup_impl (some (default_dir default_meta)) path (upsert_entry meta) root

  unfoldable pub add_file : Bytes → F → Dir M F S → Dir M F S × Result Error (Unit {0})
  unfolding ends_with_slash
  add_file path x root =
      if ends_with_slash path then (root, err path_trailing_slash) else insert path (file x) root

  unfoldable pub add_symlink : Bytes → S → Dir M F S → Dir M F S × Result Error (Unit {0})
  unfolding ends_with_slash
  add_symlink path x root =
      if ends_with_slash path then (root, err path_trailing_slash) else insert path (symlink x) root
