-- ===== src/Pearchive/Forest/Unpack.antt =====
-- Unpacking reads the format back.
use program_explorer.Prelude.{
  ℕ, suc, ◌+◌, ◌^◌, ◌≤◌, ◌<◌, ◌≡◌, ◌≢◌, refl, ◌∙◌, ap, arith, Bool, some, List, [], ◌∷◌, ◌++◌,
  le→leb, length, length-append, take-append, drop-append, All, All-append, append_assoc,
  append-nil, if◌then◌else◌,
}
use mathlib.Core.Path.{fun_ext}
use program_explorer.Prelude.Result.{ok, err}
use program_explorer.Prelude.Bytes.{Bytes, to_le_bytes, from-to_le_bytes}
use program_explorer.Pearchive.Format.{archive_truncated, tag_try_from, read_cstr, read_le_u32}
use program_explorer.Pearchive.Format.Names.{read_cstr-cons}
use program_explorer.PathBuf.{join_slash}
use program_explorer.PathBuf.Plain.{IsPlain, push-join, pop-join}
use program_explorer.Pearchive.Unpack.{read_file, Outcome, unpack_step, unpack_visitor}
use program_explorer.Pearchive.Unpack.Loop.{
  unpack_from, unpack_visitor-from, unpack_from-nil, unpack_from-cons,
}
use program_explorer.Pearchive.Forest.{
  Forest, empty, file, dir, encode, listing, IsName, IsNamed, IsSized,
}

-- A name of 1 to 255 bytes without a nul is read back from before its terminator.
pub read_cstr-append :
    (name rest : Bytes)
    → name ≢ []
    → All (λ b. b ≢ 0) name
    → length name ≤ 255
    → read_cstr (name ++ 0 ∷ rest) ≡ ok (name, rest)
read_cstr-append [] rest ne h le = absurd (ne refl)
read_cstr-append (b ∷ s) rest ne (hb, h) le = read_cstr-cons b s rest h (omega arith)

pub read_le_u32-append :
    (n : ℕ) (rest : Bytes) → n < 2 ^ 32 → read_le_u32 (to_le_bytes 4 n ++ rest) ≡ ok (n, rest)
unfolding read_le_u32 to_le_bytes
read_le_u32-append n rest h =
    rw (le→leb 4 (suc (suc (suc (suc (length rest))))) (omega arith))
      (ap (λ (t : ℕ). ok (t, rest)) (from-to_le_bytes n h))

pub read_file-append :
    (name contents rest : Bytes)
    → IsName name
    → length contents < 2 ^ 32
    → read_file (name ++ 0 ∷ (to_le_bytes 4 (length contents) ++ (contents ++ rest)))
      ≡ ok (name, contents, rest)
unfolding read_file
read_file-append name contents rest h le = rw (
  read_cstr-append name _ h.plain.not_empty h.no_nul h.short,
  read_le_u32-append (length contents) (contents ++ rest) le,
  le→leb (length contents) (length (contents ++ rest)) (omega (arith, length-append contents rest)),
  take-append contents rest,
  drop-append contents rest,
)

pub file_bytes :
    (n l c e rest : Bytes) → (n ++ 0 ∷ (l ++ (c ++ e))) ++ rest ≡ n ++ 0 ∷ (l ++ (c ++ (e ++ rest)))
file_bytes n l c e rest = simp append_assoc

pub dir_bytes :
    (n i e rest : Bytes) → (n ++ 0 ∷ (i ++ 3 ∷ e)) ++ rest ≡ n ++ 0 ∷ (i ++ 3 ∷ (e ++ rest))
dir_bytes n i e rest = simp append_assoc

module _ {ℓ} {V : Type ℓ} (on_file : Bytes → Bytes → V → V × Bool) where
  -- The visitor over a list of files, then `k`; it stops where it says so.
  unfoldable pub feed_then : List (Bytes × Bytes) → V → (V → Outcome on_file) → Outcome on_file
  feed_then [] v k = k v
  feed_then ((path, contents) ∷ l) v k =
      let (v1, more) = on_file path contents v in
      let rest = feed_then l v1 k in if more then rest else some (v1, ok tt)

  -- The visitor's state behind the list.
  unfoldable pub feed : List (Bytes × Bytes) → V → V
  feed [] v = v
  feed ((path, contents) ∷ l) v =
      let (v1, more) = on_file path contents v in let rest = feed l v1 in if more then rest else v1

  feed_then-append :
      (l m : List (Bytes × Bytes)) (v : V) (k : V → Outcome on_file)
      → feed_then (l ++ m) v k ≡ feed_then l v (λ w. feed_then m w k)
  unfolding feed_then
  feed_then-append [] m v k = refl
  feed_then-append ((p, c) ∷ l) m v k = ground (arith, feed_then-append l m (on_file p c v).0 k)

  feed_then-ok :
      (l : List (Bytes × Bytes)) (v : V)
      → feed_then l v (λ w. some (w, ok tt)) ≡ some (feed l v, ok tt)
  unfolding feed_then feed
  feed_then-ok [] v = refl
  feed_then-ok ((p, c) ∷ l) v = ground (arith, feed_then-ok l (on_file p c v).0)

  feed_then-cong :
      (l : List (Bytes × Bytes)) (v : V) {k m : V → Outcome on_file}
      → ((w : V) → k w ≡ m w)
      → feed_then l v k ≡ feed_then l v m
  feed_then-cong l v h = rw (fun_ext h)

  from-file :
      (name contents rest : Bytes) (ds : List Bytes) (depth : ℕ) (v : V)
      → All IsPlain ds
      → IsName name
      → length contents < 2 ^ 32
      → unpack_from on_file
          (1 ∷ (name ++ 0 ∷ (to_le_bytes 4 (length contents) ++ (contents ++ rest))))
          (join_slash ds)
          depth
          v
        ≡ (if (on_file (join_slash (ds ++ name ∷ [])) contents v).1
            then unpack_from on_file rest
                (join_slash ds)
                depth
                (on_file (join_slash (ds ++ name ∷ [])) contents v).0
            else some ((on_file (join_slash (ds ++ name ∷ [])) contents v).0, ok tt))
  unfolding unpack_step tag_try_from
  from-file name contents rest ds depth v hds h le = rw (
    unpack_from-cons on_file 1 _ (join_slash ds) depth v,
    read_file-append name contents rest h le,
    push-join ds name hds h.plain,
    pop-join ds name hds h.plain,
  )

  from-dir :
      (name rest : Bytes) (ds : List Bytes) (depth : ℕ) (v : V)
      → All IsPlain ds
      → IsName name
      → unpack_from on_file (2 ∷ (name ++ 0 ∷ rest)) (join_slash ds) depth v
        ≡ unpack_from on_file rest (join_slash (ds ++ name ∷ [])) (depth + 1) v
  unfolding unpack_step tag_try_from
  from-dir name rest ds depth v hds h = rw (
    unpack_from-cons on_file 2 _ (join_slash ds) depth v,
    read_cstr-append name rest h.plain.not_empty h.no_nul h.short,
    push-join ds name hds h.plain,
  )

  from-pop :
      (name rest : Bytes) (ds : List Bytes) (depth : ℕ) (v : V)
      → All IsPlain ds
      → IsName name
      → unpack_from on_file (3 ∷ rest) (join_slash (ds ++ name ∷ [])) (depth + 1) v
        ≡ unpack_from on_file rest (join_slash ds) depth v
  unfolding unpack_step tag_try_from
  from-pop name rest ds depth v hds h =
      rw
        (
          unpack_from-cons on_file 3 rest (join_slash (ds ++ name ∷ [])) (depth + 1) v,
          pop-join ds name hds h.plain,
        )
        (ground arith)

  -- The unpacker on a forest, whatever follows: the visitor sees the listing, and the loop comes back
  -- to the directory and the depth that it was at.
  unpack_from-encode :
      (t : Forest) (rest : Bytes) (ds : List Bytes) (depth : ℕ) (v : V)
      → All IsPlain ds
      → IsNamed t
      → IsSized t
      → unpack_from on_file (encode t ++ rest) (join_slash ds) depth v
        ≡ feed_then (listing ds t) v (λ w. unpack_from on_file rest (join_slash ds) depth w)
  unfolding encode listing feed_then
  unpack_from-encode empty rest ds depth v hds n s = refl
  unpack_from-encode (file name contents t) rest ds depth v hds (hn, ns) (hs, ss) = rw (
    file_bytes name (to_le_bytes 4 (length contents)) contents (encode t) rest,
    from-file name contents (encode t ++ rest) ds depth v hds hn hs,
    unpack_from-encode t rest ds depth (on_file (join_slash (ds ++ name ∷ [])) contents v).0 hds ns
        ss,
  )
  unpack_from-encode (dir name inner t) rest ds depth v hds (hn, ni, nt) (si, st) =
      let inside = All-append IsPlain ds (name ∷ []) hds (hn.plain, tt) in
      rw
        (
          dir_bytes name (encode inner) (encode t) rest,
          from-dir name (encode inner ++ 3 ∷ (encode t ++ rest)) ds depth v hds hn,
          feed_then-append (listing (ds ++ name ∷ []) inner) (listing ds t) v,
          unpack_from-encode inner (3 ∷ (encode t ++ rest)) (ds ++ name ∷ []) (depth + 1) v inside
              ni si,
        )
        (feed_then-cong (listing (ds ++ name ∷ []) inner) v (λ w.
          from-pop name (encode t ++ rest) ds depth w hds hn
          ∙ unpack_from-encode t rest ds depth w hds nt st))

  -- An archive of a forest, whatever the visitor: it is shown the files of the forest in order, each
  -- under its whole path and with its contents, until it stops or there are none left, and unpacking
  -- succeeds with the state that the visitor is left in.
  pub unpack_visitor-encode :
      (t : Forest) (v : V)
      → IsNamed t
      → IsSized t
      → unpack_visitor on_file (encode t) v ≡ some (feed (listing [] t) v, ok tt)
  unfolding join_slash
  unpack_visitor-encode t v n s =
      rw
        (
          unpack_visitor-from on_file (encode t) v,
          ← append-nil (encode t),
          unpack_from-encode t [] [] 0 v tt n s,
        )
        (feed_then-cong (listing [] t) v (λ w. unpack_from-nil on_file [] 0 w)
          ∙ feed_then-ok (listing [] t) v)

  unclosed_bytes :
      (name : Bytes) (w : V)
      → IsName name
      → unpack_from on_file (2 ∷ (name ++ 0 ∷ [])) [] 0 w ≡ some (w, err archive_truncated)
  unfolding join_slash
  unclosed_bytes name w h =
      from-dir name [] [] 0 w tt h ∙ unpack_from-nil on_file (join_slash (name ∷ [])) 1 w

  -- The same archive with a directory behind it that is not closed: the unpacker reports that the
  -- archive is truncated, once the visitor has seen every file.
  pub unpack_visitor-unclosed :
      (t : Forest) (name : Bytes) (v : V)
      → IsNamed t
      → IsSized t
      → IsName name
      → unpack_visitor on_file (encode t ++ 2 ∷ (name ++ 0 ∷ [])) v
        ≡ feed_then (listing [] t) v (λ w. some (w, err archive_truncated))
  unfolding join_slash
  unpack_visitor-unclosed t name v n s h =
      rw
        (
          unpack_visitor-from on_file (encode t ++ 2 ∷ (name ++ 0 ∷ [])) v,
          unpack_from-encode t (2 ∷ (name ++ 0 ∷ [])) [] 0 v tt n s,
        )
        (feed_then-cong (listing [] t) v (λ w. unclosed_bytes name w h))
