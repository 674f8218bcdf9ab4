-- ===== src/Pearchive/Pack.antt =====
-- Packing into memory (pearchive/src/lib.rs).
use program_explorer.Prelude.{
  ℕ, ◌+◌, ◌-◌, ◌^◌, Option, some, List, [], ◌∷◌, ◌++◌, not, ltb, leb, ◌==◌, length,
}
use program_explorer.Prelude.Result.{Result, ok, ◌>>=◌, ◌>>◌, ensure, ok_or}
use program_explorer.Prelude.Bytes.{Bytes, to_le_bytes}
use program_explorer.Pearchive.Format
use program_explorer.Pearchive.Format.{
  Error, dir_too_deep, empty_stack, write, tag_byte, max_dir_depth, size_underflow, send_file,
}

pub record PackMemToWriter {ℓ} (W : Type ℓ) : Type ℓ where
  pub writer : W
  pub depth : ℕ

-- `W: Write`: `write_all` gives the writer behind the write, or nothing where it fails.
module _ {ℓ} {W : Type ℓ} (write_all : W → Bytes → Option W) where
  unfoldable pub put : Bytes → PackMemToWriter W → Result Error (PackMemToWriter W)
  put bytes p = do w ← ok_or (write_all p.writer bytes) write; ok (record p { writer = w })

  unfoldable pub file : Bytes → Bytes → PackMemToWriter W → Result Error (PackMemToWriter W)
  unfolding put
  file name contents p = do
    ensure (ltb (length contents) (2 ^ 32)) write
    p1 ← put (tag_byte Format.file ∷ []) p
    p2 ← put name p1
    p3 ← put (0 ∷ []) p2
    p4 ← put (to_le_bytes 4 (length contents)) p3
    put contents p4

  unfoldable pub dir : Bytes → PackMemToWriter W → Result Error (PackMemToWriter W)
  unfolding put
  dir name p = do
    ensure (leb p.depth max_dir_depth) dir_too_deep
    p1 ← put (tag_byte Format.dir ∷ []) (record p { depth = p.depth + 1 })
    p2 ← put name p1
    put (0 ∷ []) p2

  unfoldable pub pop : PackMemToWriter W → Result Error (PackMemToWriter W)
  unfolding put
  pop p = do
    ensure (not (p.depth == 0)) empty_stack
    put (tag_byte Format.pop ∷ []) (record p { depth = p.depth - 1 })

-- `PackMemToVec`: a `Cursor<Vec<u8>>` at its end, whose writes do not fail.
abbrev pub write_vec : Bytes → Bytes → Option Bytes
write_vec v bytes = some (v ++ bytes)

abbrev pub PackMemToVec : Type 0
PackMemToVec = PackMemToWriter Bytes

unfoldable pub with_vec : Bytes → PackMemToVec
with_vec v = record { writer = v; depth = 0 }

unfoldable pub new : PackMemToVec
unfolding with_vec
new = with_vec []

-- One call of the packer.
pub data Op : Type 0 where
  add_file : Bytes → Bytes → Op
  add_dir : Bytes → Op
  leave : Op

unfoldable pub apply : Op → PackMemToVec → Result Error PackMemToVec
unfolding file dir pop
apply (add_file name contents) p = file write_vec name contents p
apply (add_dir name) p = dir write_vec name p
apply leave p = pop write_vec p

unfoldable pub apply_all : List Op → PackMemToVec → Result Error PackMemToVec
apply_all [] p = ok p
apply_all (op ∷ ops) p = do p1 ← apply op p; apply_all ops p1
