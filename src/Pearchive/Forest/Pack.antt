-- ===== src/Pearchive/Forest/Pack.antt =====
-- Packing writes the format, and refuses what is too deep.
use program_explorer.Prelude.{
  ℕ, suc, ◌+◌, ◌^◌, ◌≤◌, ◌<◌, ◌≡◌, ◌∙◌, arith, List, [], ◌∷◌, ◌++◌, leb, lt→ltb, le→leb, length,
  append_assoc, append-nil, if◌then◌else◌,
}
use Prim.Native.Nat.{max}
use native.Mathlib.Decide.{dec_le}
use program_explorer.Prelude.Result.{ok, err, ◌>>=◌}
use program_explorer.Prelude.Bytes.{Bytes, to_le_bytes}
use program_explorer.Pearchive.Format.{tag_byte, dir_too_deep}
use program_explorer.Pearchive.Pack
use program_explorer.Pearchive.Pack.{
  PackMemToVec, Op, add_file, add_dir, leave, apply, apply_all, new, write_vec, pop,
}
use program_explorer.Pearchive.Forest.{Forest, empty, file, dir, calls, encode, height, IsSized}

apply-file :
    (name contents w : Bytes) (d : ℕ)
    → length contents < 2 ^ 32
    → apply (add_file name contents) (record { writer = w; depth = d })
      ≡ ok (record {
        writer = w ++ 1 ∷ (name ++ 0 ∷ (to_le_bytes 4 (length contents) ++ contents));
        depth = d;
      })
unfolding apply tag_byte Pack.pop
apply-file name contents w d h = rw (lt→ltb _ _ h) (simp append_assoc)

apply-dir :
    (name w : Bytes) (d : ℕ)
    → d ≤ 32
    → apply (add_dir name) (record { writer = w; depth = d })
      ≡ ok (record { writer = w ++ 2 ∷ (name ++ 0 ∷ []); depth = d + 1 })
unfolding apply tag_byte Pack.dir
apply-dir name w d h = rw (le→leb _ _ h) (simp append_assoc)

apply-dir_too_deep :
    (name w : Bytes) (d : ℕ)
    → 32 < d
    → apply (add_dir name) (record { writer = w; depth = d }) ≡ err dir_too_deep
unfolding apply Pack.dir
apply-dir_too_deep name w d h = ground arith

apply-leave :
    (w : Bytes) (d : ℕ)
    → apply leave (record { writer = w; depth = d + 1 })
      ≡ ok (record { writer = w ++ 3 ∷ []; depth = d })
unfolding apply tag_byte Pack.pop
apply-leave w d = ground arith

apply_all-leave :
    (ops : List Op) (w : Bytes) (d : ℕ)
    → apply_all (leave ∷ ops) (record { writer = w; depth = d + 1 })
      ≡ apply_all ops (record { writer = w ++ 3 ∷ []; depth = d })
unfolding apply_all
apply_all-leave ops w d = rw (apply-leave w d)

-- Both parts of a directory have to fit.
both_fit :
    {R : Type 0} {a b : R} (c e : R) (d inner rest : ℕ)
    → a ≡ (if leb (d + 1 + inner) 33 then b else e)
    → b ≡ (if leb (d + rest) 33 then c else e)
    → a ≡ (if leb (d + max (suc inner) rest) 33 then c else e)
both_fit c e d inner rest p q = ground arith

-- The packer on a forest, whatever calls follow: it appends the format's bytes and comes back to
-- its depth, or refuses a directory that is too deep.
pub apply_all-calls :
    (t : Forest) (ops : List Op) (w : Bytes) (d : ℕ)
    → IsSized t
    → d ≤ 33
    → apply_all (calls t ++ ops) (record { writer = w; depth = d }) ≡ (
        if leb (d + height t) 33
        then apply_all ops (record { writer = w ++ encode t; depth = d })
        else err dir_too_deep)
unfolding calls encode height apply_all
apply_all-calls empty ops w d h hd = rw append-nil (ground arith)
apply_all-calls (file name contents rest) ops w d (h, hs) hd =
    rw (apply-file name contents w d h) (apply_all-calls rest ops _ d hs hd ∙ simp append_assoc)
apply_all-calls (dir name inner rest) ops w d (hi, hr) hd = elim (dec_le d 32) [
  | no deep ↦ rw (apply-dir_too_deep name w d (omega arith)) (ground arith)
  | yes fits ↦
      rw (append_assoc, apply-dir name w d fits)
        (both_fit _ _ d (height inner) (height rest)
            (apply_all-calls inner _ _ (d + 1) hi (omega arith))
            (apply_all-leave _ _ d ∙ apply_all-calls rest ops _ d hr hd)
          ∙ simp append_assoc)
]

-- `PackMemToVec::new()`, a call for each file and directory of the forest, and `into_vec`: the result
-- is the format's bytes if no directory lies deeper than 33, and `DirTooDeep` if one does.
pub pack-encode :
    (t : Forest)
    → IsSized t
    → (apply_all (calls t) new >>= λ p. ok p.writer)
      ≡ (if leb (height t) 33 then ok (encode t) else err dir_too_deep)
unfolding new apply_all
pack-encode t h =
    rw (← append-nil (calls t), apply_all-calls t [] [] 0 h (omega arith)) (ground arith)
