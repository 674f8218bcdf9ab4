-- ===== src/Pearchive/Unpack.antt =====
-- Unpacking (pearchive/src/lib.rs): the loop that calls a visitor, and the table of files.
pub mod Loop
use program_explorer.Prelude.{
  ℕ, zero, suc, ◌+◌, ◌-◌, Bool, true, Option, none, some, List, [], ◌∷◌, leb, ◌==◌, if◌then◌else◌,
  length, take, drop,
}
use program_explorer.Prelude.Result.{Result, ok, err, ◌>>=◌, ◌>>◌, ensure}
use program_explorer.Prelude.Bytes.{Bytes, bytes_eq}
use program_explorer.Pearchive.Format.{
  Error, ArchiveFormat1Tag, archive_truncated, empty_stack, bad_tag, file, dir, pop, tag_try_from,
  read_cstr, read_le_u32,
}
use program_explorer.PathBuf

-- What stands behind a file's tag: its name, its contents, and the input behind them.
unfoldable pub read_file : Bytes → Result Error (Bytes × Bytes × Bytes)
read_file cur = do
  (name, cur1) ← read_cstr cur
  (len, cur2) ← read_le_u32 cur1
  ensure (leb len (length cur2)) archive_truncated
  ok (name, take len cur2, drop len cur2)

-- The visitor is its state and `on_file`, whose flag says whether to go on. The result is the
-- visitor's last state beside what the function returns; `none` means that the rounds ran out.
module _ {ℓ} {V : Type ℓ} (on_file : Bytes → Bytes → V → V × Bool) where
  abbrev pub Outcome : Type ℓ
  Outcome = Option (V × Result Error (Unit {0}))

  -- `again` is the next round of the loop, on the input, the path, the depth and the visitor.
  unfoldable pub after_file :
      (Bytes → Bytes → ℕ → V → Outcome)
      → Bytes
      → ℕ
      → V
      → Result Error (Bytes × Bytes × Bytes)
      → Outcome
  after_file again path depth v (err e) = some (v, err e)
  after_file again path depth v (ok (name, contents, rest)) =
      let path1 = PathBuf.push path name in
      let (v1, more) = on_file path1 contents v in
      if more then again rest (PathBuf.pop path1) depth v1 else some (v1, ok tt)

  unfoldable pub after_dir :
      (Bytes → Bytes → ℕ → V → Outcome) → Bytes → ℕ → V → Result Error (Bytes × Bytes) → Outcome
  after_dir again path depth v (err e) = some (v, err e)
  after_dir again path depth v (ok (name, rest)) = again rest (PathBuf.push path name) (depth + 1) v

  unfoldable pub unpack_step :
      (Bytes → Bytes → ℕ → V → Outcome) → Option ArchiveFormat1Tag → Bytes → Bytes → ℕ → V → Outcome
  unfolding after_file after_dir
  unpack_step again none cur path depth v = some (v, err bad_tag)
  unpack_step again (some file) cur path depth v = after_file again path depth v (read_file cur)
  unpack_step again (some dir) cur path depth v = after_dir again path depth v (read_cstr cur)
  unpack_step again (some pop) cur path depth v =
      if depth == 0 then some (v, err empty_stack) else again cur (PathBuf.pop path) (depth - 1) v

  unfoldable pub unpack_loop : ℕ → Bytes → Bytes → ℕ → V → Outcome
  unfolding unpack_step
  unpack_loop zero cur path depth v = none
  unpack_loop (suc rounds) [] path depth v =
      some (v, if depth == 0 then ok tt else err archive_truncated)
  unpack_loop (suc rounds) (b ∷ cur) path depth v =
      unpack_step (unpack_loop rounds) (tag_try_from b) cur path depth v

  -- Each round takes a byte at least.
  unfoldable pub unpack_visitor : Bytes → V → Outcome
  unfolding unpack_loop
  unpack_visitor bytes v = unpack_loop (suc (length bytes)) bytes [] 0 v

-- `HashMap<PathBuf, Vec<u8>>`: a later insertion under a path replaces the earlier one.
abbrev pub FileMap : Type 0
FileMap = List (Bytes × Bytes)

unfoldable pub insert : Bytes → Bytes → FileMap → FileMap
insert k v [] = (k, v) ∷ []
insert k v ((j, w) ∷ m) =
    let rest = insert k v m in if bytes_eq j k then (k, v) ∷ m else (j, w) ∷ rest

unfoldable pub hashmap_on_file : Bytes → Bytes → FileMap → FileMap × Bool
hashmap_on_file path contents m = (insert path contents m, true)

-- `?` on the unpacker's result, then `into_hashmap`.
unfoldable pub into_hashmap : Outcome hashmap_on_file → Option (Result Error FileMap)
into_hashmap none = none
into_hashmap (some (m, r)) = some (r >>= λ _. ok m)

unfoldable pub unpack_to_hashmap : Bytes → Option (Result Error FileMap)
unpack_to_hashmap bytes = into_hashmap (unpack_visitor hashmap_on_file bytes [])
