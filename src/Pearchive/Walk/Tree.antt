-- ===== src/Pearchive/Walk/Tree.antt =====
-- The archive that the walk over a directory writes.
use program_explorer.Prelude.{
  ℕ, suc, ◌+◌, ◌≤◌, ◌≡◌, refl, sym, ap, ◌∙◌, arith, Bool, true, false, [], ◌∷◌, ◌++◌, leb, length,
  append_assoc, append-nil, if◌then◌else◌, Bool-cases, inl, inr,
}
use Prim.Native.Nat.{max}
use mathlib.Core.Path.{subst}
use native.Mathlib.Decide.{dec_le}
use program_explorer.Prelude.Result.{Result, ok, err, ◌>>=◌, map_err}
use program_explorer.Prelude.Bytes.{Bytes, to_le_bytes}
use program_explorer.Pearchive.BufWriter
use program_explorer.Pearchive.BufWriter.{
  BufWriter, contents, Holds, write_all, write_all_lem, flush_lem, into_inner, into_inner_lem,
}
use program_explorer.Pearchive.Format.{on_dir}
use program_explorer.Pearchive.Walk.{
  Dirents, end, failed, regular, directory, unopenable, other, is_dot, visit_dirc_rec, Stop,
  returned, as_on_dir, Output, PackFsToWriter, fs_on_file, fs_on_dir, fs_leave_dir, fs_visitor,
  into_file, pack_dir_to_writer,
}
use program_explorer.Pearchive.Forest.{Forest, empty, file, dir, encode, height, IsSized}
use program_explorer.Pearchive.Walk.Calls.{
  packed, Packs, Packs-bind, Packs-walk, Succeeds-as_on_dir, IsWritable, Adds, on_file_lem,
  on_dir_lem, on_dir-too_deep, leave_dir_lem,
}

-- The files and directories that the walk keeps.
unfoldable pub forest : Dirents → Forest
forest end = empty
forest failed = empty
forest (regular name (ok (size, contents)) rest) = file name contents (forest rest)
forest (regular name (err e) rest) = forest rest
forest (directory name inner rest) =
    if is_dot name then forest rest else dir name (forest inner) (forest rest)
forest (unopenable name e rest) = forest rest
forest (other name rest) = forest rest

forest-dot :
    (name : Bytes) (inner rest : Dirents)
    → is_dot name ≡ true
    → forest (directory name inner rest) ≡ forest rest
unfolding forest
forest-dot name inner rest e = rw e

forest-keep :
    (name : Bytes) (inner rest : Dirents)
    → is_dot name ≡ false
    → forest (directory name inner rest) ≡ dir name (forest inner) (forest rest)
unfolding forest
forest-keep name inner rest e = rw e

-- No call of the kernel fails, and every file is as long as its size says.
abbrev pub IsReadable : Dirents → Type 0
IsReadable end = Unit
IsReadable failed = ⊥
IsReadable (regular name (ok (size, contents)) rest) = (size ≡ length contents) × IsReadable rest
IsReadable (regular name (err e) rest) = ⊥
IsReadable (directory name inner rest) = IsReadable inner × IsReadable rest
IsReadable (unopenable name e rest) = (is_dot name ≡ true) × IsReadable rest
IsReadable (other name rest) = IsReadable rest

module _ (o : Output) (works : IsWritable o) where
  abbrev visit : Dirents → PackFsToWriter → Result Stop PackFsToWriter
  visit entries w = visit_dirc_rec (fs_visitor o) entries w

  -- What the walk does with a forest.
  abbrev PacksForest : Forest → PackFsToWriter → Result Stop PackFsToWriter → Type 0
  PacksForest f w r = Packs (packed w ++ encode f) w.depth (leb (w.depth + height f) 33) r

  Packs-eq :
      (bs bs' : Bytes) (d d' : ℕ) (fits fits' : Bool) (r : Result Stop PackFsToWriter)
      → bs ≡ bs'
      → d ≡ d'
      → fits ≡ fits'
      → Packs bs d fits r
      → Packs bs' d' fits' r
  Packs-eq bs bs' d d' fits fits' (ok v) e g h (a, b, c) = (sym h ∙ a, b ∙ e, c ∙ g)
  Packs-eq bs bs' d d' fits fits' (err x) e g h (a, b) = (sym h ∙ a, b)

  too_deep : (d i r : ℕ) → leb (d + 1 + i) 33 ≡ false → leb (d + max (suc i) r) 33 ≡ false
  too_deep d i r h = ground (arith, h)

  same_fits : (d i r : ℕ) → leb (d + 1 + i) 33 ≡ true → leb (d + r) 33 ≡ leb (d + max (suc i) r) 33
  same_fits d i r h = ground (arith, h)

  dir_bytes :
      (w name i r : Bytes)
      → (((w ++ 2 ∷ (name ++ 0 ∷ [])) ++ i) ++ 3 ∷ []) ++ r ≡ w ++ 2 ∷ (name ++ 0 ∷ (i ++ 3 ∷ r))
  dir_bytes w name i r = simp append_assoc

  file_bytes :
      (w name size fd r : Bytes)
      → (w ++ 1 ∷ (name ++ 0 ∷ (size ++ fd))) ++ r ≡ w ++ 1 ∷ (name ++ 0 ∷ (size ++ (fd ++ r)))
  file_bytes w name size fd r = simp append_assoc

  visit-directory :
      (name : Bytes) (inner rest : Dirents) (w : PackFsToWriter)
      → is_dot name ≡ false
      → w.depth ≤ 33
      → ((v : PackFsToWriter) → v.depth ≤ 33 → PacksForest (forest inner) v (visit inner v))
      → ((v : PackFsToWriter) → v.depth ≤ 33 → PacksForest (forest rest) v (visit rest v))
      → PacksForest (dir name (forest inner) (forest rest)) w (visit (directory name inner rest) w)
  unfolding encode height visit_dirc_rec
  visit-directory name inner rest w keep h hi hr = elim (dec_le w.depth 32) [
    | no deep ↦ rw (keep, on_dir-too_deep o works name w (omega arith)) (ground arith, refl)
    | yes fits ↦ rw keep (
        Packs-bind (Adds o works w (2 ∷ (name ++ 0 ∷ [])) (w.depth + 1)) _ _ _
          (map_err as_on_dir (fs_on_dir o name w)) _
          (Succeeds-as_on_dir _ (fs_on_dir o name w) (on_dir_lem o works name w fits))
          (λ v1 (e1, d1).
            Packs-walk (packed v1 ++ encode (forest inner)) _ v1.depth _
              (leb (v1.depth + height (forest inner)) 33) _ (visit inner v1) _
              (hi v1 (omega (arith, d1)))
              (λ f. too_deep w.depth (height (forest inner)) (height (forest rest)) (rw d1 at f))
              (λ v2 in_fits e2 d2.
                Packs-bind (Adds o works v2 (3 ∷ []) w.depth) _ _ _
                  (map_err as_on_dir (fs_leave_dir o v2)) _
                  (Succeeds-as_on_dir _ (fs_leave_dir o v2)
                    (leave_dir_lem o works v2 w.depth (omega (arith, d1, d2))))
                  (λ v3 (e3, d3).
                    Packs-eq (packed v3 ++ encode (forest rest)) _ v3.depth w.depth
                      (leb (v3.depth + height (forest rest)) 33) _ (visit rest v3)
                      (ap (λ t. t ++ encode (forest rest))
                          (e3
                            ∙ ap (λ t. t ++ 3 ∷ []) (e2 ∙ ap (λ t. t ++ encode (forest inner)) e1))
                        ∙ dir_bytes (packed w) name (encode (forest inner)) (encode (forest rest)))
                      d3
                      (ap (λ (n : ℕ). leb (n + height (forest rest)) 33) d3
                        ∙ same_fits w.depth (height (forest inner)) (height (forest rest))
                            (rw d1 at in_fits))
                      (hr v3 (omega (arith, d3, h)))))))
  ]

  visit-forest :
      (entries : Dirents) (w : PackFsToWriter)
      → IsReadable entries
      → IsSized (forest entries)
      → w.depth ≤ 33
      → PacksForest (forest entries) w (visit entries w)
  unfolding forest encode height visit_dirc_rec
  visit-forest end w r s h = (ground (arith, h), sym (append-nil (packed w)), refl)
  visit-forest failed w r s h = absurd r
  visit-forest (regular name (ok (size, fd)) rest) w (e, r) (z, s) h = rw e (
      Packs-bind (Adds o works w (1 ∷ (name ++ 0 ∷ (to_le_bytes 4 (length fd) ++ fd))) w.depth) _ _
        _ (fs_on_file o name (length fd) fd w) _ (on_file_lem o works name fd w z)
        (λ v (e', d').
          Packs-eq (packed v ++ encode (forest rest)) _ v.depth w.depth
            (leb (v.depth + height (forest rest)) 33) _ (visit rest v)
            (ap (λ t. t ++ encode (forest rest)) e'
              ∙ file_bytes (packed w) name (to_le_bytes 4 (length fd)) fd (encode (forest rest)))
            d' (ap (λ (n : ℕ). leb (n + height (forest rest)) 33) d')
            (visit-forest rest v r s (omega (arith, d', h)))))
  visit-forest (regular name (err e) rest) w r s h = absurd r
  visit-forest (directory name inner rest) w (ri, rr) s h = elim (Bool-cases (is_dot name)) [
    | inl dot ↦ rw dot (visit-forest rest w rr (subst IsSized (forest-dot name inner rest dot) s) h)
    | inr keep ↦
        let z : IsSized (dir name (forest inner) (forest rest)) =
          subst IsSized (forest-keep name inner rest keep) s in
        let all =
          visit-directory name inner rest w keep h (λ v k. visit-forest inner v ri z.0 k)
            (λ v k. visit-forest rest v rr z.1 k) in
        subst (λ f. PacksForest f w (visit (directory name inner rest) w))
          (sym (forest-keep name inner rest keep)) all
  ]
  visit-forest (unopenable name e rest) w (dot, r) s h = rw dot (visit-forest rest w r s h)
  visit-forest (other name rest) w r s h = visit-forest rest w r s h

  into_file_lem :
      (bs : Bytes) (fits : Bool) (r : Result Stop PackFsToWriter)
      → Packs bs 0 fits r
      → (r >>= into_file o) ≡ (if fits then ok bs else err (returned on_dir))
  unfolding into_file
  into_file_lem bs fits (ok v) (h, e, l) =
      rw (h, into_inner_lem o.write_inner works.appends v.writer, e) refl
  into_file_lem bs fits (err x) (h, e) = rw (h, e) refl

  -- Packing a directory that can be read, whose files are below 4 GiB, behind what the file holds: the
  -- file has the bytes of the forest of its files and directories added, `.`, `..` and other kinds of file left
  -- out, if none of them lies deeper than 33 directories, and the error is `OnDir` if one does. That
  -- is so if writing to the file appends all that is given and does not fail, nor does flushing, and if sendfile
  -- makes progress; the buffer and the loop of sendfile are the code's own.
  pub pack_dir_to_writer-encode :
      (entries : Dirents) (out : Bytes)
      → IsReadable entries
      → IsSized (forest entries)
      → pack_dir_to_writer o entries out ≡ (
          if leb (height (forest entries)) 33
          then ok (out ++ encode (forest entries))
          else err (returned on_dir))
  unfolding pack_dir_to_writer
  pack_dir_to_writer-encode entries out r s =
      let start : PackFsToWriter = record { writer = BufWriter.new out; depth = 0 } in
      into_file_lem (out ++ encode (forest entries)) (leb (height (forest entries)) 33)
        (visit entries start)
        (Packs-eq (packed start ++ encode (forest entries)) (out ++ encode (forest entries)) 0 0
          (leb (0 + height (forest entries)) 33) _ (visit entries start)
          (ap (λ t. t ++ encode (forest entries)) (append-nil out)) refl (ground arith)
          (visit-forest entries start r s (omega arith)))
