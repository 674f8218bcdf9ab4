-- ===== src/ImageIndex/Multi/Names.antt =====
-- What a map by names holds, and what the test for duplicates is worth in a map by digests.
use program_explorer.Prelude.{
  ◌≡◌, ◌≢◌, ◌⊎◌, inl, inr, refl, sym, ap, ◌∙◌, arith, false, none, some, List, [], ◌∷◌, All,
  Option-cases, if◌then◌else◌,
}
use mathlib.Core.Path.{subst}
use program_explorer.Prelude.Bytes.{Bytes, bytes_eq, bytes_eq_iff, bytes_eq_refl}
use program_explorer.Peinit.Types.{RootfsKind}
use program_explorer.ImageIndex.KeyType.{KeyType}
use program_explorer.ImageIndex.File.{duplicate_name}
use program_explorer.ImageIndex.Multi.{
  PeImageId, IndexEntry, MultiIndexEntry, Map, name, get, insert_map, insert, key_of, add_image,
  add_images, unless_contained, or_stop, Added,
}

module _ {ℓ} {C : Type ℓ} where
  get-insert_map :
      (q key : Bytes) (e : MultiIndexEntry C) (m : Map C)
      → get q (insert_map key e m) ≡ (if bytes_eq key q then some e else get q m)
  unfolding get insert_map
  get-insert_map q key e [] = refl
  get-insert_map q key e ((k, old) ∷ m) =
      ground
        (arith, get-insert_map q key e m, bytes_eq_iff k key, bytes_eq_iff k q, bytes_eq_iff key q)

  abbrev pub entry_of : Bytes → RootfsKind → IndexEntry C → MultiIndexEntry C
  entry_of path kind image = record { path = path; image = image; rootfs_kind = kind }

  -- Adding by name keeps every entry that is there.
  add_image-keeps :
      (path : Bytes) (kind : RootfsKind) (image : IndexEntry C) (m : Map C) (q : Bytes)
      (e : MultiIndexEntry C)
      → get q m ≡ some e
      → get q (add_image KeyType.name path kind image m).1 ≡ some e
  unfolding add_image unless_contained insert key_of
  add_image-keeps path kind image m q e h = elim (Option-cases (get (name image.id) m)) [
    | inl k ↦ rw k (
        get-insert_map q (name image.id) (entry_of path kind image) m
        ∙ ground (arith, bytes_eq_iff (name image.id) q))
    | inr (old, k) ↦ rw k h
  ]

  -- What is kept by one image is kept by all, also where one of them is refused.
  or_stop-keeps :
      (q : Bytes) (e : MultiIndexEntry C) (a : Added C) (next : Map C → Added C)
      → get q a.1 ≡ some e
      → ((m : Map C) → get q m ≡ some e → get q (next m).1 ≡ some e)
      → get q (or_stop a next).1 ≡ some e
  or_stop-keeps q e (some x, m) next h k = h
  or_stop-keeps q e (none, m) next h k = k m h

  add_images-keeps :
      (path : Bytes) (kind : RootfsKind) (images : List (IndexEntry C)) (m : Map C) (q : Bytes)
      (e : MultiIndexEntry C)
      → get q m ≡ some e
      → get q (add_images KeyType.name path kind images m).1 ≡ some e
  unfolding add_images
  add_images-keeps path kind [] m q e h = h
  add_images-keeps path kind (image ∷ images) m q e h =
      or_stop-keeps q e (add_image KeyType.name path kind image m)
        (add_images KeyType.name path kind images) (add_image-keeps path kind image m q e h)
        (λ m' k. add_images-keeps path kind images m' q e k)

  add_image-cases :
      (key_type : KeyType) (path : Bytes) (kind : RootfsKind) (image : IndexEntry C) (m : Map C)
      → ((get (name image.id) m ≡ none)
          × (add_image key_type path kind image m
              ≡ (none, insert key_type image.id (entry_of path kind image) m)))
        ⊎ (add_image key_type path kind image m ≡ (some duplicate_name, m))
  unfolding add_image unless_contained
  add_image-cases key_type path kind image m = elim (Option-cases (get (name image.id) m)) [
    | inl k ↦ inl (k, rw k refl)
    | inr (old, k) ↦ inr (rw k refl)
  ]

  get-insert :
      (key_type : KeyType) (id : PeImageId) (e : MultiIndexEntry C) (m : Map C)
      → get (key_of key_type id) (insert key_type id e m) ≡ some e
  unfolding insert
  get-insert key_type id e m =
      get-insert_map (key_of key_type id) (key_of key_type id) e m
      ∙ rw (bytes_eq_refl (key_of key_type id)) refl

  -- Images of one file that were all added by name, to any map: each is found under its name, with
  -- the path and the kind of the file, and what the map held before is still found.
  pub add_images-get :
      (path : Bytes) (kind : RootfsKind) (images : List (IndexEntry C)) (m : Map C)
      → (add_images KeyType.name path kind images m).0 ≡ none
      → let added : Map C = (add_images KeyType.name path kind images m).1 in
        All (λ image. get (name image.id) added ≡ some (entry_of path kind image)) images
        × ((q : Bytes) (e : MultiIndexEntry C) → get q m ≡ some e → get q added ≡ some e)
  unfolding add_images key_of
  add_images-get path kind [] m h = (tt, λ q e k. k)
  add_images-get path kind (image ∷ images) m h =
      elim (add_image-cases KeyType.name path kind image m) [
        | inl (k, a) ↦
            let m1 : Map C = insert KeyType.name image.id (entry_of path kind image) m in
            let rest =
              add_images-get path kind images m1 (
                subst (λ b. (or_stop b (add_images KeyType.name path kind images)).0 ≡ none) a h) in
            (
              (
                rw a (
                    rest.1 (name image.id) (entry_of path kind image)
                      (get-insert KeyType.name image.id (entry_of path kind image) m)),
                subst
                    (λ b.
                      All
                        (λ x.
                          get (name x.id) (or_stop b (add_images KeyType.name path kind images)).1
                          ≡ some (entry_of path kind x))
                        images)
                    (sym a) rest.0,
              ),
              λ q e. add_images-keeps path kind (image ∷ images) m q e,
            )
        | inr a ↦
            absurd
              (cc (sym h ∙ ap (λ b. (or_stop b (add_images KeyType.name path kind images)).0) a))
      ]

  -- Two images of a file with one name and two digests, the first of which is not that name: a map by
  -- names refuses the second, a map by digests takes both.
  pub add_images-same_name :
      (path : Bytes) (kind : RootfsKind) (i j : IndexEntry C)
      → name i.id ≡ name j.id
      → i.id.digest ≢ name j.id
      → i.id.digest ≢ j.id.digest
      → ((add_images KeyType.name path kind (i ∷ j ∷ []) []).0 ≡ some duplicate_name)
        × ((add_images KeyType.digest path kind (i ∷ j ∷ []) []).0 ≡ none)
        × (get i.id.digest (add_images KeyType.digest path kind (i ∷ j ∷ []) []).1
            ≡ some (entry_of path kind i))
        × (get j.id.digest (add_images KeyType.digest path kind (i ∷ j ∷ []) []).1
            ≡ some (entry_of path kind j))
  unfolding add_images add_image unless_contained insert insert_map key_of get
  add_images-same_name path kind i j e d f =
      let ne : bytes_eq i.id.digest (name j.id) ≡ false =
        ground (arith, bytes_eq_iff i.id.digest (name j.id)) in
      let ne' : bytes_eq i.id.digest j.id.digest ≡ false =
        ground (arith, bytes_eq_iff i.id.digest j.id.digest) in
      (
        rw (e, bytes_eq_refl (name j.id)) refl,
        rw ne refl,
        rw (ne, ne', bytes_eq_refl i.id.digest) refl,
        rw ne (
            get-insert KeyType.digest j.id (entry_of path kind j)
              ((i.id.digest, entry_of path kind i) ∷ [])),
      )
