-- ===== src/Pearchive/Forest/RoundTrip.antt =====
-- From the packer in memory to the table of files.
use program_explorer.Prelude.{
  ◌≤◌, ◌≡◌, refl, ◌∙◌, ap, arith, Option, none, some, List, [], ◌∷◌, le→leb, if◌then◌else◌,
}
use program_explorer.Prelude.Result.{ok, ◌>>=◌}
use program_explorer.Prelude.Bytes.{Bytes, bytes_eq, bytes_eq_iff}
use program_explorer.Pearchive.Pack.{apply_all, new}
use program_explorer.Pearchive.Unpack.{
  FileMap, insert, hashmap_on_file, into_hashmap, unpack_to_hashmap,
}
use program_explorer.Pearchive.Forest.{Forest, calls, encode, listing, height, IsNamed, IsSized}
use program_explorer.Pearchive.Forest.Pack.{pack-encode}
use program_explorer.Pearchive.Forest.Unpack.{feed, unpack_visitor-encode}

-- `HashMap::get`
unfoldable pub lookup : Bytes → FileMap → Option Bytes
lookup k [] = none
lookup k ((j, v) ∷ m) = if bytes_eq j k then some v else lookup k m

-- What the last file under a path holds, or `other` if there is none.
unfoldable pub last_at : Bytes → List (Bytes × Bytes) → Option Bytes → Option Bytes
last_at k [] other = other
last_at k ((j, v) ∷ l) other = last_at k l (if bytes_eq j k then some v else other)

lookup-insert :
    (k j v : Bytes) (m : FileMap)
    → lookup k (insert j v m) ≡ (if bytes_eq j k then some v else lookup k m)
unfolding lookup insert
lookup-insert k j v [] = refl
lookup-insert k j v ((i, w) ∷ m) =
    ground (arith, lookup-insert k j v m, bytes_eq_iff i j, bytes_eq_iff j k, bytes_eq_iff i k)

lookup-feed :
    (k : Bytes) (l : List (Bytes × Bytes)) (m : FileMap)
    → lookup k (feed hashmap_on_file l m) ≡ last_at k l (lookup k m)
unfolding feed hashmap_on_file last_at
lookup-feed k [] m = refl
lookup-feed k ((j, v) ∷ l) m =
    lookup-feed k l (insert j v m) ∙ ap (last_at k l) (lookup-insert k j v m)

-- A forest whose names are plain, short and without nul, whose files are below 4 GiB and whose
-- directories are at most 33 deep: `PackMemToVec` packs it, `unpack_to_hashmap` unpacks the result,
-- and in the table every path has the contents of the last file that the forest has under it, and
-- no entry where the forest has no such file.
pub unpack-pack :
    (t : Forest)
    → IsNamed t
    → IsSized t
    → height t ≤ 33
    → (bytes : Bytes) × (m : FileMap) × ((apply_all (calls t) new >>= λ p. ok p.writer) ≡ ok bytes)
      × (unpack_to_hashmap bytes ≡ some (ok m))
      × ((path : Bytes) → lookup path m ≡ last_at path (listing [] t) none)
unfolding unpack_to_hashmap into_hashmap
unpack-pack t n s h = (
  encode t,
  feed hashmap_on_file (listing [] t) [],
  pack-encode t s ∙ rw (le→leb _ _ h),
  rw (unpack_visitor-encode hashmap_on_file t [] n s),
  λ path. lookup-feed path (listing [] t) [] ∙ unfold lookup in refl,
)
