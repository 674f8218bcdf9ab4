-- ===== src/Pearchive/UnpackDir.antt =====
-- Unpacking into a directory (`unpack_to_dir` of pearchive/src/lib.rs, with pearchive/src/open.rs).
pub mod Loop
pub mod Total
pub mod Tree
pub mod Truncated
use program_explorer.Prelude.{
  ℕ, zero, suc, Option, none, some, List, [], ◌∷◌, ◌==◌, if◌then◌else◌, length,
}
use program_explorer.Prelude.Result.{Result, ok, err, map_err}
use program_explorer.Prelude.Bytes.{Bytes}
use program_explorer.Pearchive.Format.{
  Error, ArchiveFormat1Tag, archive_truncated, empty_stack, stack_empty, bad_tag, open_at, mkdir_at,
  write, file, dir, pop, tag_try_from, read_cstr,
}
use program_explorer.Pearchive.Unpack.{read_file}

-- The kernel's calls on a file system `S`: each changes the state and gives an errno where it fails.
-- `D` is an open directory and `F` a file that is open for writing.
pub record Kernel (D F S : Type 0) : Type 0 where
  pub openat2_write : D → Bytes → S → S × Result ℕ F
  pub openat2_path : D → Bytes → S → S × Result ℕ D
  pub mkdirat2 : D → Bytes → S → S × Result ℕ (Unit {0})
  pub write_all : F → Bytes → S → S × Result ℕ (Unit {0})

-- open.rs: an errno becomes an error of the archive.
unfoldable pub with_error : {A S : Type 0} → (ℕ → Error) → S × Result ℕ A → S × Result Error A
with_error f (s, r) = (s, map_err f r)

-- `?` on a call: the changes of a call that fails stay.
unfoldable pub and_then :
    {A S : Type 0}
    → S × Result Error A
    → (A → S → Option (S × Result Error (Unit {0})))
    → Option (S × Result Error (Unit {0}))
and_then (s, err e) k = some (s, err e)
and_then (s, ok a) k = k a s

module _ {D F S : Type 0} (kernel : Kernel D F S) where
  open kernel use {openat2_write, openat2_path, mkdirat2, write_all}

  unfoldable pub openat_w : D → Bytes → S → S × Result Error F
  unfolding with_error
  openat_w parent name s = with_error open_at (openat2_write parent name s)

  unfoldable pub openpathat : D → Bytes → S → S × Result Error D
  unfolding with_error
  openpathat parent name s = with_error open_at (openat2_path parent name s)

  unfoldable pub mkdirat : D → Bytes → S → S × Result Error (Unit {0})
  unfolding with_error
  mkdirat parent name s = with_error mkdir_at (mkdirat2 parent name s)

  -- The last state of the file system and what the function returns; `none` is an end of the rounds.
  abbrev pub Outcome : Type 0
  Outcome = Option (S × Result Error (Unit {0}))

  -- The next round of the loop, on the input, the stack (its top first) and the file system.
  abbrev pub Again : Type 0
  Again = Bytes → List D → S → Outcome

  unfoldable pub write_file :
      Again → D → List D → S → Result Error (Bytes × Bytes × Bytes) → Outcome
  unfolding and_then openat_w with_error
  write_file again parent stack s (err e) = some (s, err e)
  write_file again parent stack s (ok (name, contents, rest)) =
      and_then (openat_w parent name s) λ f s1.
        and_then (with_error (λ _. write) (write_all f contents s1))
          λ _ s2. again rest (parent ∷ stack) s2

  unfoldable pub file_step : Again → List D → Bytes → S → Outcome
  unfolding write_file
  file_step again [] cur s = some (s, err stack_empty)
  file_step again (parent ∷ stack) cur s = write_file again parent stack s (read_file cur)

  -- What `cur.first()` is behind a directory's name: at a pop the directory is neither opened nor
  -- pushed, and at the end of the input, or at a bad tag, it is left to the next round.
  unfoldable pub enter_dir :
      Again → D → List D → Bytes → Option ArchiveFormat1Tag → ℕ → Bytes → S → Outcome
  unfolding and_then openpathat
  enter_dir again parent stack name none b rest s = again (b ∷ rest) (parent ∷ stack) s
  enter_dir again parent stack name (some pop) b rest s = again rest (parent ∷ stack) s
  enter_dir again parent stack name (some _) b rest s =
      and_then (openpathat parent name s) λ d s1. again (b ∷ rest) (d ∷ parent ∷ stack) s1

  unfoldable pub peek_tag : Again → D → List D → Bytes → Bytes → S → Outcome
  unfolding enter_dir
  peek_tag again parent stack name [] s = again [] (parent ∷ stack) s
  peek_tag again parent stack name (b ∷ rest) s =
      enter_dir again parent stack name (tag_try_from b) b rest s

  unfoldable pub make_dir : Again → D → List D → S → Result Error (Bytes × Bytes) → Outcome
  unfolding and_then mkdirat peek_tag
  make_dir again parent stack s (err e) = some (s, err e)
  make_dir again parent stack s (ok (name, rest)) =
      and_then (mkdirat parent name s) λ _ s1. peek_tag again parent stack name rest s1

  unfoldable pub dir_step : Again → List D → Bytes → S → Outcome
  unfolding make_dir
  dir_step again [] cur s = some (s, err stack_empty)
  dir_step again (parent ∷ stack) cur s = make_dir again parent stack s (read_cstr cur)

  unfoldable pub pop_step : Again → List D → Bytes → S → Outcome
  pop_step again [] cur s = some (s, err empty_stack)
  pop_step again (d ∷ stack) cur s = again cur stack s

  unfoldable pub unpack_step : Again → Option ArchiveFormat1Tag → List D → Bytes → S → Outcome
  unfolding file_step dir_step pop_step
  unpack_step again none stack cur s = some (s, err bad_tag)
  unpack_step again (some file) stack cur s = file_step again stack cur s
  unpack_step again (some dir) stack cur s = dir_step again stack cur s
  unpack_step again (some pop) stack cur s = pop_step again stack cur s

  unfoldable pub unpack_loop : ℕ → Again
  unfolding unpack_step
  unpack_loop zero cur stack s = none
  unpack_loop (suc rounds) [] stack s =
      some (s, if length stack == 1 then ok tt else err archive_truncated)
  unpack_loop (suc rounds) (b ∷ cur) stack s =
      unpack_step (unpack_loop rounds) (tag_try_from b) stack cur s

  -- Each round takes a byte at least.
  unfoldable pub unpack_to_dir : Bytes → D → S → Outcome
  unfolding unpack_loop
  unpack_to_dir bytes starting_dir s = unpack_loop (suc (length bytes)) bytes (starting_dir ∷ []) s
