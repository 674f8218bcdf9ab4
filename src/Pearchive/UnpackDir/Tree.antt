-- ===== src/Pearchive/UnpackDir/Tree.antt =====
-- What `unpack_to_dir` does with an archive of a forest.
use program_explorer.Prelude.{
  ◌^◌, ◌<◌, ◌≡◌, refl, ◌∙◌, some, List, [], ◌∷◌, ◌++◌, length, append-nil,
}
use mathlib.Core.Path.{fun_ext}
use program_explorer.Prelude.Result.{ok}
use program_explorer.Prelude.Bytes.{Bytes, to_le_bytes}
use program_explorer.Pearchive.Format.{tag_try_from, write}
use program_explorer.Pearchive.UnpackDir.{
  Kernel, Outcome, and_then, with_error, openat_w, openpathat, mkdirat, unpack_step, peek_tag,
  unpack_to_dir,
}
use program_explorer.Pearchive.UnpackDir.Loop.{
  and_then-cong, unpack_from, unpack_to_dir-from, unpack_from-nil, unpack_from-cons,
}
use program_explorer.Pearchive.Forest.{Forest, empty, file, dir, encode, IsName, IsNamed, IsSized}
use program_explorer.Pearchive.Forest.Unpack.{
  read_cstr-append, read_file-append, file_bytes, dir_bytes,
}

module _ {D F S : Type 0} (kernel : Kernel D F S) where
  -- The forest is made below `d`, each file and directory in its parent's; a directory without
  -- contents is made and not opened. The first call that fails ends it. Then `k`.
  unfoldable pub build_then : D → Forest → S → (S → Outcome kernel) → Outcome kernel
  build_then d empty s k = k s
  build_then d (file name contents t) s k = and_then (openat_w kernel d name s) λ f s1.
      and_then (with_error (λ _. write) (kernel.write_all f contents s1))
        λ _ s2. build_then d t s2 k
  build_then d (dir name empty t) s k =
      and_then (mkdirat kernel d name s) λ _ s1. build_then d t s1 k
  build_then d (dir name inner t) s k = and_then (mkdirat kernel d name s) λ _ s1.
      and_then (openpathat kernel d name s1)
        λ sub s2. build_then sub inner s2 λ s3. build_then d t s3 k

  build_then-cong :
      (d : D) (t : Forest) (s : S) {k m : S → Outcome kernel}
      → ((w : S) → k w ≡ m w)
      → build_then d t s k ≡ build_then d t s m
  build_then-cong d t s h = rw (fun_ext h)

  from-file :
      (name contents rest : Bytes) (d : D) (stack : List D) (s : S)
      → IsName name
      → length contents < 2 ^ 32
      → unpack_from kernel
          (1 ∷ (name ++ 0 ∷ (to_le_bytes 4 (length contents) ++ (contents ++ rest))))
          (d ∷ stack)
          s
        ≡ (and_then (openat_w kernel d name s) λ f s1.
            and_then
              (with_error (λ _. write) (kernel.write_all f contents s1))
              λ _ s2. unpack_from kernel rest (d ∷ stack) s2)
  unfolding unpack_step tag_try_from
  from-file name contents rest d stack s h le =
      rw (unpack_from-cons kernel 1 _ (d ∷ stack) s, read_file-append name contents rest h le)

  from-dir :
      (name rest : Bytes) (d : D) (stack : List D) (s : S)
      → IsName name
      → unpack_from kernel (2 ∷ (name ++ 0 ∷ rest)) (d ∷ stack) s ≡ (
          and_then
            (mkdirat kernel d name s)
            λ _ s1. peek_tag kernel (unpack_from kernel) d stack name rest s1)
  unfolding unpack_step tag_try_from
  from-dir name rest d stack s h = rw (
    unpack_from-cons kernel 2 _ (d ∷ stack) s,
    read_cstr-append name rest h.plain.not_empty h.no_nul h.short,
  )

  from-pop :
      (rest : Bytes) (sub d : D) (stack : List D) (s : S)
      → unpack_from kernel (3 ∷ rest) (sub ∷ d ∷ stack) s ≡ unpack_from kernel rest (d ∷ stack) s
  unfolding unpack_step tag_try_from
  from-pop rest sub d stack s = unpack_from-cons kernel 3 rest (sub ∷ d ∷ stack) s

  -- A directory with contents is opened, and the rest is done in it.
  inside :
      (inner t : Forest) (name rest : Bytes) (d : D) (stack : List D) (s : S)
      → ((sub : D) (w : S)
          → unpack_from kernel (encode inner ++ 3 ∷ (encode t ++ rest)) (sub ∷ d ∷ stack) w
            ≡ build_then sub inner w
                (λ u. unpack_from kernel (3 ∷ (encode t ++ rest)) (sub ∷ d ∷ stack) u))
      → ((w : S)
          → unpack_from kernel (encode t ++ rest) (d ∷ stack) w
            ≡ build_then d t w (λ u. unpack_from kernel rest (d ∷ stack) u))
      → (and_then (openpathat kernel d name s) λ sub s2.
          unpack_from kernel (encode inner ++ 3 ∷ (encode t ++ rest)) (sub ∷ d ∷ stack) s2)
        ≡ (and_then (openpathat kernel d name s) λ sub s2.
            build_then sub inner s2
              λ s3. build_then d t s3 λ w. unpack_from kernel rest (d ∷ stack) w)
  inside inner t name rest d stack s hi ht =
      and_then-cong (openpathat kernel d name s) _ _ λ sub s2.
        hi sub s2
        ∙ build_then-cong sub inner s2 (λ s3. from-pop (encode t ++ rest) sub d stack s3 ∙ ht s3)

  unpack_from-encode :
      (t : Forest) (rest : Bytes) (d : D) (stack : List D) (s : S)
      → IsNamed t
      → IsSized t
      → unpack_from kernel (encode t ++ rest) (d ∷ stack) s
        ≡ build_then d t s (λ w. unpack_from kernel rest (d ∷ stack) w)
  unfolding encode build_then peek_tag tag_try_from
  unpack_from-encode empty rest d stack s n z = refl
  unpack_from-encode (file name contents t) rest d stack s (hn, ns) (hs, ss) =
      rw
        (
          file_bytes name (to_le_bytes 4 (length contents)) contents (encode t) rest,
          from-file name contents (encode t ++ rest) d stack s hn hs,
        )
        (and_then-cong (openat_w kernel d name s) _ _ λ f s1.
          and_then-cong (with_error (λ _. write) (kernel.write_all f contents s1)) _ _
            λ _ s2. unpack_from-encode t rest d stack s2 ns ss)
  unpack_from-encode (dir name empty t) rest d stack s (hn, ni, nt) (si, st) =
      rw (dir_bytes name [] (encode t) rest, from-dir name (3 ∷ (encode t ++ rest)) d stack s hn)
        (and_then-cong (mkdirat kernel d name s) _ _
          λ _ s1. unpack_from-encode t rest d stack s1 nt st)
  unpack_from-encode (dir name (file m c i) t) rest d stack s (hn, ni, nt) (si, st) =
      rw
        (
          dir_bytes name (encode (file m c i)) (encode t) rest,
          from-dir name (encode (file m c i) ++ 3 ∷ (encode t ++ rest)) d stack s hn,
        )
        (and_then-cong (mkdirat kernel d name s) _ _ λ _ s1.
          inside (file m c i) t name rest d stack s1
            (λ sub w.
              unpack_from-encode (file m c i) (3 ∷ (encode t ++ rest)) sub (d ∷ stack) w ni si)
            (λ w. unpack_from-encode t rest d stack w nt st))
  unpack_from-encode (dir name (dir m j i) t) rest d stack s (hn, ni, nt) (si, st) =
      rw
        (
          dir_bytes name (encode (dir m j i)) (encode t) rest,
          from-dir name (encode (dir m j i) ++ 3 ∷ (encode t ++ rest)) d stack s hn,
        )
        (and_then-cong (mkdirat kernel d name s) _ _ λ _ s1.
          inside (dir m j i) t name rest d stack s1
            (λ sub w.
              unpack_from-encode (dir m j i) (3 ∷ (encode t ++ rest)) sub (d ∷ stack) w ni si)
            (λ w. unpack_from-encode t rest d stack w nt st))

  -- An archive of a forest is unpacked by exactly the calls that make the forest below the starting
  -- directory, in its order: the first call that fails gives the result, and without one it is `Ok`.
  pub unpack_to_dir-encode :
      (t : Forest) (d : D) (s : S)
      → IsNamed t
      → IsSized t
      → unpack_to_dir kernel (encode t) d s ≡ build_then d t s (λ w. some (w, ok tt))
  unpack_to_dir-encode t d s n z =
      rw
        (
          unpack_to_dir-from kernel (encode t) d s,
          ← append-nil (encode t),
          unpack_from-encode t [] d [] s n z,
        )
        (build_then-cong d t s (λ w. unpack_from-nil kernel (d ∷ []) w))

  -- The same archive with a directory behind it that is not closed: the directory is made, and the
  -- result is `Ok` all the same.
  pub unpack_to_dir-unclosed :
      (t : Forest) (name : Bytes) (d : D) (s : S)
      → IsNamed t
      → IsSized t
      → IsName name
      → unpack_to_dir kernel (encode t ++ 2 ∷ (name ++ 0 ∷ [])) d s
        ≡ build_then d t s (λ w. and_then (mkdirat kernel d name w) λ _ w1. some (w1, ok tt))
  unfolding peek_tag
  unpack_to_dir-unclosed t name d s n z h =
      rw
        (
          unpack_to_dir-from kernel (encode t ++ 2 ∷ (name ++ 0 ∷ [])) d s,
          unpack_from-encode t (2 ∷ (name ++ 0 ∷ [])) d [] s n z,
        )
        (build_then-cong d t s λ w.
          from-dir name [] d [] w h
          ∙ and_then-cong (mkdirat kernel d name w) _ _
              (λ _ w1. unpack_from-nil kernel (d ∷ []) w1))
