-- ===== src/Pearchive/UnpackDir/Truncated.antt =====
-- The two unpackers on an archive that ends inside a directory.
use program_explorer.Prelude.{◌≡◌, refl, some, List, [], ◌∷◌, ◌++◌}
use program_explorer.Prelude.Result.{ok, err}
use program_explorer.Prelude.Bytes.{Bytes}
use program_explorer.Pearchive.Format.{archive_truncated}
use program_explorer.Pearchive.Unpack.{
  FileMap, hashmap_on_file, insert, into_hashmap, unpack_to_hashmap,
}
use program_explorer.Pearchive.UnpackDir.{Kernel, and_then, mkdirat, unpack_to_dir}
use program_explorer.Pearchive.UnpackDir.Tree.{build_then, unpack_to_dir-unclosed}
use program_explorer.Pearchive.Forest.{Forest, encode, listing, IsName, IsNamed, IsSized}
use program_explorer.Pearchive.Forest.Unpack.{feed_then, unpack_visitor-unclosed}

into_hashmap-truncated :
    (l : List (Bytes × Bytes)) (m : FileMap)
    → into_hashmap (feed_then hashmap_on_file l m (λ w. some (w, err archive_truncated)))
      ≡ some (err archive_truncated)
unfolding into_hashmap feed_then hashmap_on_file
into_hashmap-truncated [] m = refl
into_hashmap-truncated ((p, c) ∷ l) m = into_hashmap-truncated l (insert p c m)

-- An archive of a forest with a directory behind it that is not closed. `unpack_to_dir` makes the
-- forest and the directory and returns `Ok`, unless a call of the kernel fails; `unpack_to_hashmap`
-- returns `ArchiveTruncated`.
pub unclosed_disagree :
    {D F S : Type 0} (kernel : Kernel D F S) (t : Forest) (name : Bytes) (d : D) (s : S)
    → IsNamed t
    → IsSized t
    → IsName name
    → (unpack_to_dir kernel (encode t ++ 2 ∷ (name ++ 0 ∷ [])) d s
        ≡ build_then kernel d t s
            (λ w. and_then (mkdirat kernel d name w) λ _ w1. some (w1, ok tt)))
      × (unpack_to_hashmap (encode t ++ 2 ∷ (name ++ 0 ∷ [])) ≡ some (err archive_truncated))
unfolding unpack_to_hashmap
unclosed_disagree kernel t name d s n z h = (
  unpack_to_dir-unclosed kernel t name d s n z h,
  rw (unpack_visitor-unclosed hashmap_on_file t name [] n z h)
      (into_hashmap-truncated (listing [] t) []),
)
