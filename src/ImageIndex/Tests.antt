-- ===== src/ImageIndex/Tests.antt =====
-- The theorems on the index at concrete files and images.
use program_explorer.Prelude.{
  ℕ, ◌+◌, ◌^◌, ◌≤◌, ◌<◌, ◌≡◌, ◌≢◌, false, refl, arith, none, some, Option, [], ◌∷◌, All, length,
}
use program_explorer.Prelude.Bytes.{Bytes, codes, bytes_eq, bytes_eq_iff}
use program_explorer.Prelude.Result.{err, ok_or}
use program_explorer.Peinit.Types.{erofs}
use program_explorer.ImageIndex.KeyType.{KeyType}
use program_explorer.ImageIndex.File.{
  invalid_index, unexpected_eof, duplicate_name, from_file, file_of, from_file-file_of,
}
use program_explorer.ImageIndex.Multi.{
  IndexEntry, MultiIndexEntry, name, get, insert, insert_map, add_image, add_images, upstream_link,
  key_of,
}
use program_explorer.ImageIndex.Multi.Names.{entry_of, add_images-get, add_images-same_name}

-- A decoder that gives the bytes.
abbrev from_slice : Bytes → Option Bytes
from_slice bs = some bs

from_file-file_of_example :
    (length (codes "[]") + 12 < 2 ^ 32
      → from_file from_slice (file_of from_slice (codes "image") (codes "[]"))
        ≡ ok_or (from_slice (codes "[]")) invalid_index)
    × (length (codes "[]") < 2 ^ 32
        → 2 ^ 32 ≤ length (codes "[]") + 12
        → from_file from_slice (file_of from_slice (codes "image") (codes "[]"))
          ≡ err unexpected_eof)
from_file-file_of_example = from_file-file_of from_slice (codes "image") (codes "[]")

abbrev busybox : Bytes → Bytes → IndexEntry ℕ
busybox digest tag = record {
  rootfs = codes "rootfs.erofs";
  config = 0;
  id = record {
    digest = digest;
    repository = codes "library/busybox";
    registry = codes "index.docker.io";
    tag = tag;
  };
}

busybox_link :
    upstream_link (busybox (codes "sha256:ab") (codes "1.37")).id
    ≡ some (codes "https://hub.docker.com/layers/library/busybox/1.37/images/sha256-ab")
unfolding upstream_link bytes_eq
busybox_link = refl

abbrev i : IndexEntry ℕ
i = busybox (codes "sha256:ab") (codes "1")

abbrev j : IndexEntry ℕ
j = busybox (codes "sha256:cd") (codes "2")

abbrev k : IndexEntry ℕ
k = busybox (codes "sha256:cd") (codes "1")

both_added : (add_images KeyType.name (codes "p") erofs (i ∷ j ∷ []) []).0 ≡ none
unfolding add_images add_image insert insert_map key_of get name bytes_eq
both_added = refl

add_images-get_example :
    All
      (λ image.
        get (name image.id) (add_images KeyType.name (codes "p") erofs (i ∷ j ∷ []) []).1
        ≡ some (entry_of (codes "p") erofs image))
      (i ∷ j ∷ [])
    × ((q : Bytes) (e : MultiIndexEntry ℕ)
        → get q [] ≡ some e
        → get q (add_images KeyType.name (codes "p") erofs (i ∷ j ∷ []) []).1 ≡ some e)
add_images-get_example = add_images-get (codes "p") erofs (i ∷ j ∷ []) [] both_added

differ : (a b : Bytes) → bytes_eq a b ≡ false → a ≢ b
differ a b h e = absurd (ground (arith, (bytes_eq_iff a b).1 e))

digest_no_name : i.id.digest ≢ name k.id
unfolding bytes_eq name
digest_no_name = differ i.id.digest (name k.id) refl

digests_differ : i.id.digest ≢ k.id.digest
unfolding bytes_eq
digests_differ = differ i.id.digest k.id.digest refl

add_images-same_name_example :
    ((add_images KeyType.name (codes "p") erofs (i ∷ k ∷ []) []).0 ≡ some duplicate_name)
    × ((add_images KeyType.digest (codes "p") erofs (i ∷ k ∷ []) []).0 ≡ none)
    × (get i.id.digest (add_images KeyType.digest (codes "p") erofs (i ∷ k ∷ []) []).1
        ≡ some (entry_of (codes "p") erofs i))
    × (get k.id.digest (add_images KeyType.digest (codes "p") erofs (i ∷ k ∷ []) []).1
        ≡ some (entry_of (codes "p") erofs k))
unfolding name
add_images-same_name_example =
    add_images-same_name (codes "p") erofs i k refl digest_no_name digests_differ
