-- ===== src/Pearchive/Walk/Calls.antt =====
-- What each call of the visitor adds to the archive.
use program_explorer.Prelude.{
  ℕ, suc, ◌+◌, ◌-◌, ◌^◌, ◌≤◌, ◌<◌, ◌≡◌, refl, sym, ap, ◌∙◌, arith, Bool, true, false, not, Option,
  none, some, [], ◌∷◌, ◌++◌, leb, ltb, le→leb, lt→ltb, length, ◌==◌, append_assoc, append-nil, take,
  take-append,
}
use program_explorer.Prelude.Result.{
  Result, ok, err, ◌>>=◌, ◌>>◌, ensure, ok_or, map_err, Succeeds, Succeeds-bind, Succeeds-map,
}
use program_explorer.Prelude.Bytes.{Bytes, to_le_bytes}
use program_explorer.Pearchive.BufWriter
use program_explorer.Pearchive.BufWriter.{
  BufWriter, contents, Holds, write_all, write_all_lem, flush_lem, into_inner, into_inner_lem,
}
use program_explorer.Pearchive.Format.{on_dir, dir_too_deep, empty_stack, write, flush, tag_byte}
use program_explorer.Pearchive.Walk.{
  Stop, returned, as_on_dir, Output, put, flush_and_send, PackFsToWriter, fs_on_file, fs_on_dir,
  fs_leave_dir,
}
use program_explorer.Pearchive.Walk.Sendfile.{MakesProgress, sendfile_all-take}

-- What is in the file and in the buffer.
abbrev pub packed : PackFsToWriter → Bytes
packed w = contents w.writer

-- The bytes `bs` were written and the depth is `d`, where they fit; where they do not, the error is `OnDir`.
abbrev pub Packs : Bytes → ℕ → Bool → Result Stop PackFsToWriter → Type 0
Packs bs d fits (ok v) = (fits ≡ true) × (packed v ≡ bs) × (v.depth ≡ d)
Packs bs d fits (err e) = (fits ≡ false) × (e ≡ returned on_dir)

pub Packs-bind :
    (P : PackFsToWriter → Type 0) (bs : Bytes) (d : ℕ) (fits : Bool)
    (r : Result Stop PackFsToWriter) (k : PackFsToWriter → Result Stop PackFsToWriter)
    → Succeeds P r
    → ((v : PackFsToWriter) → P v → Packs bs d fits (k v))
    → Packs bs d fits (r >>= k)
Packs-bind P bs d fits (ok v) k h f = f v h
Packs-bind P bs d fits (err e) k h f = absurd h.lower

-- Behind a walk that may fail, in which case all fails.
pub Packs-walk :
    (bs bs' : Bytes) (d d' : ℕ) (fits fits' : Bool) (r : Result Stop PackFsToWriter)
    (k : PackFsToWriter → Result Stop PackFsToWriter)
    → Packs bs d fits r
    → (fits ≡ false → fits' ≡ false)
    → ((v : PackFsToWriter) → fits ≡ true → packed v ≡ bs → v.depth ≡ d → Packs bs' d' fits' (k v))
    → Packs bs' d' fits' (r >>= k)
Packs-walk bs bs' d d' fits fits' (ok v) k (h, e, l) g f = f v h e l
Packs-walk bs bs' d d' fits fits' (err e) k (h, q) g f = (g h, q)

Succeeds-ok_or :
    {A : Type 0} (P : A → Type 0) (o : Option A) (e : Stop) → Holds P o → Succeeds P (ok_or o e)
Succeeds-ok_or P none e h = absurd h.lower
Succeeds-ok_or P (some a) e h = h

pub Succeeds-as_on_dir :
    (P : PackFsToWriter → Type 0) (r : Result Stop PackFsToWriter)
    → Succeeds P r
    → Succeeds P (map_err as_on_dir r)
Succeeds-as_on_dir P (ok v) h = h
Succeeds-as_on_dir P (err e) h = absurd h.lower

take-length : (xs : Bytes) → take (length xs) xs ≡ xs
take-length xs = ap (λ t. take (length xs) t) (sym (append-nil xs)) ∙ take-append xs []

-- A file to which all is written, and a kernel whose sendfile makes progress.
pub record IsWritable (o : Output) : Type 0 where
  pub appends : (out bytes : Bytes) → o.write_inner out bytes ≡ some (out ++ bytes)
  pub flushes : (out : Bytes) → o.flush_inner out ≡ some out
  pub progress : MakesProgress o.sendfile

module _ (o : Output) (works : IsWritable o) where
  -- Exactly `bytes` were written behind what was there, and the depth is `d`.
  abbrev pub Adds : PackFsToWriter → Bytes → ℕ → PackFsToWriter → Type 0
  Adds w bytes d v = (packed v ≡ packed w ++ bytes) × (v.depth ≡ d)

  put_lem : (bytes : Bytes) (w : PackFsToWriter) → Succeeds (Adds w bytes w.depth) (put o bytes w)
  unfolding put
  put_lem bytes w =
      let P : BufWriter Bytes → Type 0 = λ b. contents b ≡ packed w ++ bytes in
      Succeeds-bind P (Adds w bytes w.depth)
        (ok_or (write_all o.write_inner w.writer bytes) (returned write)) _
        (Succeeds-ok_or P (write_all o.write_inner w.writer bytes) (returned write)
          (write_all_lem o.write_inner works.appends w.writer bytes))
        (λ b h. (h, refl))

  flush_and_send_lem :
      (fd : Bytes) (w : PackFsToWriter)
      → Succeeds (Adds w fd w.depth) (flush_and_send o (length fd) fd w)
  unfolding flush_and_send
  flush_and_send_lem fd w =
      let P : BufWriter Bytes → Type 0 = λ b. (b.buffer ≡ []) × (b.inner ≡ packed w) in
      Succeeds-bind P (Adds w fd w.depth)
        (ok_or (BufWriter.flush o.write_inner o.flush_inner w.writer) (returned flush)) _
        (Succeeds-ok_or P (BufWriter.flush o.write_inner o.flush_inner w.writer) (returned flush)
          (flush_lem o.write_inner works.appends o.flush_inner w.writer works.flushes))
        (λ b (empty_buffer, all).
          rw
            (
              sendfile_all-take o.sendfile works.progress (suc (length fd)) fd (length fd) b.inner
                  (omega arith) (omega arith),
              take-length fd,
              empty_buffer,
              all,
              append-nil,
            )
            (refl, refl))

  Adds-bind :
      (w : PackFsToWriter) (xs ys : Bytes) (d : ℕ) (r : Result Stop PackFsToWriter)
      (k : PackFsToWriter → Result Stop PackFsToWriter)
      → Succeeds (Adds w xs d) r
      → ((v : PackFsToWriter) → Succeeds (Adds v ys v.depth) (k v))
      → Succeeds (Adds w (xs ++ ys) d) (r >>= k)
  Adds-bind w xs ys d r k h f = Succeeds-bind (Adds w xs d) (Adds w (xs ++ ys) d) r k h (λ v (e, l).
      Succeeds-map (Adds v ys v.depth) (Adds w (xs ++ ys) d) (k v) (f v)
        (λ u (e', l'). (e' ∙ ap (λ t. t ++ ys) e ∙ append_assoc (packed w) xs ys, l' ∙ l)))

  -- `ensure` in front, where its test succeeds.
  Succeeds-ensure :
      (P : PackFsToWriter → Type 0) (b : Bool) (e : Stop) (r : Result Stop PackFsToWriter)
      → b ≡ true
      → Succeeds P r
      → Succeeds P (ensure b e >> r)
  Succeeds-ensure P b e r h k = rw h k

  Adds-eq :
      (w : PackFsToWriter) (d d' : ℕ) (xs ys : Bytes) (r : Result Stop PackFsToWriter)
      → xs ≡ ys
      → d ≡ d'
      → Succeeds (Adds w xs d) r
      → Succeeds (Adds w ys d') r
  Adds-eq w d d' xs ys r e f h =
      Succeeds-map (Adds w xs d) (Adds w ys d') r h
        (λ v (q, l). (q ∙ ap (λ t. packed w ++ t) e, l ∙ f))

  pub on_file_lem :
      (name fd : Bytes) (w : PackFsToWriter)
      → length fd < 2 ^ 32
      → Succeeds
          (Adds w (1 ∷ (name ++ 0 ∷ (to_le_bytes 4 (length fd) ++ fd))) w.depth)
          (fs_on_file o name (length fd) fd w)
  unfolding fs_on_file tag_byte
  on_file_lem name fd w h =
      let size : Bytes = to_le_bytes 4 (length fd) in
      let name_nul : Bytes = name ++ 0 ∷ [] in
      let all : (1 ∷ []) ++ (name_nul ++ (size ++ fd)) ≡ 1 ∷ (name ++ 0 ∷ (size ++ fd)) =
        ap (λ t. 1 ∷ t) (append_assoc name (0 ∷ []) (size ++ fd)) in
      Succeeds-ensure _ (ltb (length fd) (2 ^ 32)) (returned write) _ (lt→ltb _ _ h) (
        Adds-eq w w.depth w.depth ((1 ∷ []) ++ (name_nul ++ (size ++ fd)))
          (1 ∷ (name ++ 0 ∷ (size ++ fd))) _ all refl
          (Adds-bind w (1 ∷ []) (name_nul ++ (size ++ fd)) w.depth _ _ (put_lem (1 ∷ []) w) (λ w1.
            Adds-bind w1 name_nul (size ++ fd) w1.depth _ _ (put_lem name_nul w1) (λ w2.
              Adds-bind w2 size fd w2.depth _ _ (put_lem size w2)
                (λ w3. flush_and_send_lem fd w3)))))

  pub on_dir_lem :
      (name : Bytes) (w : PackFsToWriter)
      → w.depth ≤ 32
      → Succeeds (Adds w (2 ∷ (name ++ 0 ∷ [])) (w.depth + 1)) (fs_on_dir o name w)
  unfolding fs_on_dir tag_byte
  on_dir_lem name w h =
      Succeeds-ensure _ (leb w.depth 32) (returned dir_too_deep) _ (le→leb _ _ h) (
        Adds-bind (record w { depth = w.depth + 1 }) (2 ∷ []) (name ++ 0 ∷ []) (w.depth + 1) _ _
          (put_lem (2 ∷ []) (record w { depth = w.depth + 1 })) (λ w1. put_lem (name ++ 0 ∷ []) w1))

  pub on_dir-too_deep :
      (name : Bytes) (w : PackFsToWriter)
      → 32 < w.depth
      → fs_on_dir o name w ≡ err (returned dir_too_deep)
  unfolding fs_on_dir
  on_dir-too_deep name w h = let deep : leb w.depth 32 ≡ false = ground (arith, h) in rw deep refl

  pub leave_dir_lem :
      (w : PackFsToWriter) (d : ℕ)
      → w.depth ≡ d + 1
      → Succeeds (Adds w (3 ∷ []) d) (fs_leave_dir o w)
  unfolding fs_leave_dir tag_byte
  leave_dir_lem w d h =
      let inside : not (w.depth == 0) ≡ true = ground (arith, h) in
      let back : w.depth - 1 ≡ d = omega (arith, h) in
      Succeeds-ensure _ (not (w.depth == 0)) (returned empty_stack) _ inside (
        Adds-eq w (w.depth - 1) d (3 ∷ []) (3 ∷ []) _ refl back
          (put_lem (3 ∷ []) (record w { depth = w.depth - 1 })))
