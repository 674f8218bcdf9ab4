-- ===== src/ImageIndex/Multi.antt =====
-- `PEImageId` and `PEImageMultiIndex` of peimage/src/index.rs.
pub mod Names
use program_explorer.Prelude.{
  ℕ, Bool, true, false, Option, none, some, List, [], ◌∷◌, ◌++◌, ◌==◌, map, if◌then◌else◌,
}
use program_explorer.Prelude.Bytes.{Bytes, bytes_eq, codes}
use program_explorer.Prelude.Result.{Result, ok, err, ◌>>=◌, ok_or}
use program_explorer.Peinit.Types.{RootfsKind, kind_of_extension}
use program_explorer.ImageIndex.KeyType.{KeyType}
use program_explorer.ImageIndex.File.{Error, unknown_rootfs_kind, duplicate_name, from_file}

pub record PeImageId : Type 0 where
  pub digest : Bytes
  pub repository : Bytes
  pub registry : Bytes
  pub tag : Bytes

-- `{registry}/{repository}:{tag}`
unfoldable pub name : PeImageId → Bytes
name id = id.registry ++ codes "/" ++ id.repository ++ codes ":" ++ id.tag

-- `s.replace(":", ..)` by one character.
unfoldable pub replace_colon : ℕ → Bytes → Bytes
replace_colon new [] = []
replace_colon new (b ∷ s) = (if b == 0x3a then new else b) ∷ replace_colon new s

unfoldable pub upstream_link : PeImageId → Option Bytes
unfolding replace_colon
upstream_link id =
    if bytes_eq id.registry (codes "index.docker.io")
    then some (
        codes "https://hub.docker.com/layers/"
        ++ id.repository
        ++ codes "/"
        ++ id.tag
        ++ codes "/images/"
        ++ replace_colon 0x2d id.digest)
    else if bytes_eq id.registry (codes "quay.io")
    then some (codes "https://quay.io/repository/" ++ id.repository ++ codes "/" ++ id.digest)
    else none

-- An image of a file's index; `C` is its configuration and manifest.
pub record IndexEntry {ℓ} (C : Type ℓ) : Type ℓ where
  pub rootfs : Bytes
  pub config : C
  pub id : PeImageId

pub record MultiIndexEntry {ℓ} (C : Type ℓ) : Type ℓ where
  pub path : Bytes
  pub image : IndexEntry C
  pub rootfs_kind : RootfsKind

-- `HashMap<String, PEImageMultiIndexEntry>` as an association list with each key once.
abbrev pub Map {ℓ} : Type ℓ → Type ℓ
Map C = List (Bytes × MultiIndexEntry C)

unfoldable pub key_of : KeyType → PeImageId → Bytes
unfolding replace_colon
key_of KeyType.name id = name id
key_of KeyType.digest_with_slash id = replace_colon 0x2f id.digest
key_of KeyType.digest id = id.digest

-- How adding ends: with an error or without, and the map as it is then, since the images before one
-- that is refused stay in it.
abbrev pub Added {ℓ} : Type ℓ → Type ℓ
Added C = Option Error × Map C

module _ {ℓ} {C : Type ℓ} where
  unfoldable pub get : Bytes → Map C → Option (MultiIndexEntry C)
  get key [] = none
  get key ((k, e) ∷ m) = if bytes_eq k key then some e else get key m

  -- `HashMap::insert`: an entry of the same key is replaced.
  unfoldable pub insert_map : Bytes → MultiIndexEntry C → Map C → Map C
  insert_map key e [] = (key, e) ∷ []
  insert_map key e ((k, old) ∷ m) =
      let rest = insert_map key e m in if bytes_eq k key then (k, e) ∷ m else (k, old) ∷ rest

  unfoldable pub insert : KeyType → PeImageId → MultiIndexEntry C → Map C → Map C
  insert key_type id entry m = insert_map (key_of key_type id) entry m

  unless_contained : Option (MultiIndexEntry C) → Map C → Map C → Added C
  unless_contained (some old) m added = (some duplicate_name, m)
  unless_contained none m added = (none, added)

  -- One image of `add_path`: the name is looked up, and the entry goes under the key of its type.
  unfoldable pub add_image : KeyType → Bytes → RootfsKind → IndexEntry C → Map C → Added C
  unfolding unless_contained
  add_image key_type path rootfs_kind image m = unless_contained (get (name image.id) m) m (
      insert key_type image.id (record { path = path; image = image; rootfs_kind = rootfs_kind }) m)

  abbrev pub or_stop : Added C → (Map C → Added C) → Added C
  or_stop (some e, m) next = (some e, m)
  or_stop (none, m) next = next m

  unfoldable pub add_images : KeyType → Bytes → RootfsKind → List (IndexEntry C) → Map C → Added C
  add_images key_type path rootfs_kind [] m = (none, m)
  add_images key_type path rootfs_kind (image ∷ images) m =
      or_stop (add_image key_type path rootfs_kind image m)
        (add_images key_type path rootfs_kind images)

  add_read :
      KeyType → Bytes → Result Error (List (IndexEntry C)) → Option RootfsKind → Map C → Added C
  add_read key_type path (err e) kind m = (some e, m)
  add_read key_type path (ok images) none m = (some unknown_rootfs_kind, m)
  add_read key_type path (ok images) (some kind) m = add_images key_type path kind images m

  -- `add_path`, on what the file holds and on the extension of its path.
  unfoldable pub add_path :
      (from_slice : Bytes → Option (List (IndexEntry C)))
      → KeyType
      → Bytes
      → Bytes
      → Option Bytes
      → Map C
      → Added C
  unfolding add_read
  add_path from_slice key_type path file extension m =
      add_read key_type path (from_file from_slice file) (kind_of_extension extension) m
