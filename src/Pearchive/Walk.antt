-- ===== src/Pearchive/Walk.antt =====
-- Packing a directory (pearchive/src/lib.rs): the walk, its visitor that writes an archive, and the
-- loop that moves a file's contents by sendfile.
pub mod Sendfile
pub mod Calls
pub mod Tree
use program_explorer.Prelude.{
  ℕ, zero, suc, ◌+◌, ◌-◌, ◌^◌, Bool, Option, none, some, List, [], ◌∷◌, ◌++◌, not, ltb, leb, ◌==◌,
  ◌||◌, if◌then◌else◌, take, drop,
}
use program_explorer.Prelude.Result.{Result, ok, err, ◌>>=◌, ◌>>◌, ensure, ok_or, map_err}
use program_explorer.Prelude.Bytes.{Bytes, to_le_bytes, bytes_eq}
use program_explorer.Pearchive.BufWriter
use program_explorer.Pearchive.BufWriter.{BufWriter, write_all, into_inner}
use program_explorer.Pearchive.Format.{
  Error, dir_too_deep, empty_stack, write, tag_byte, max_dir_depth, size_underflow, send_file,
  getdents, file, dir, pop, on_dir, flush,
}

-- `sendfile(out, in, None, len)` is the kernel's: it is given what is left of the file and the count
-- that is asked for, and answers with an errno or the count that it moved. The loop goes on until
-- `len` is used up; `none` means that the rounds ran out.
unfoldable pub after_sendfile :
    (Bytes → ℕ → Bytes → Option (Result Error Bytes))
    → Bytes
    → ℕ
    → Bytes
    → Result ℕ ℕ
    → Option (Result Error Bytes)
after_sendfile again contents len out (err errno) = some (err (send_file errno))
after_sendfile again contents len out (ok sent) =
    if ltb len sent
    then some (err size_underflow)
    else again (drop sent contents) (len - sent) (out ++ take sent contents)

unfoldable pub sendfile_all :
    (Bytes → ℕ → Result ℕ ℕ) → ℕ → Bytes → ℕ → Bytes → Option (Result Error Bytes)
unfolding after_sendfile
sendfile_all sendfile zero contents len out = none
sendfile_all sendfile (suc rounds) contents len out =
    if len == 0
    then some (ok out)
    else after_sendfile (sendfile_all sendfile rounds) contents len out (sendfile contents len)

-- What getdents lists of a directory, in the kernel's order. A regular file comes with what
-- `openat` and `file_size` answer, its size and the open file; a directory with what is in it.
pub data Dirents : Type 0 where
  end : Dirents
  failed : Dirents
  regular : Bytes → Result Error (ℕ × Bytes) → Dirents → Dirents
  directory : Bytes → Dirents → Dirents → Dirents
  unopenable : Bytes → Error → Dirents → Dirents
  other : Bytes → Dirents → Dirents

-- How a call of the packer ends early: by an error that it returns, or not at all, where a loop of
-- sendfile still goes on behind its rounds.
pub data Stop : Type 0 where
  returned : Error → Stop
  unfinished : Stop

-- `.map_err(|_| Error::OnDir)`
abbrev pub as_on_dir : Stop → Stop
as_on_dir (returned e) = returned on_dir
as_on_dir unfinished = unfinished

pub record PackFsVisitor {ℓ} (V : Type ℓ) : Type ℓ where
  pub on_file : Bytes → ℕ → Bytes → V → Result Stop V
  pub enter_dir : Bytes → V → Result Stop V
  pub leave_dir : V → Result Stop V

unfoldable pub is_dot : Bytes → Bool
is_dot name = bytes_eq name (0x2e ∷ []) || bytes_eq name (0x2e ∷ 0x2e ∷ [])

module _ {ℓ} {V : Type ℓ} (visitor : PackFsVisitor V) where
  open visitor use {on_file, enter_dir, leave_dir}

  unfoldable pub visit_dirc_rec : Dirents → V → Result Stop V
  visit_dirc_rec end v = ok v
  visit_dirc_rec failed v = err (returned getdents)
  visit_dirc_rec (regular name opened rest) v = do
    (size, fd) ← map_err returned opened
    v1 ← on_file name size fd v
    visit_dirc_rec rest v1
  visit_dirc_rec (directory name inner rest) v =
      let skip = visit_dirc_rec rest v in
      let enter : Result Stop V = do
        v1 ← map_err as_on_dir (enter_dir name v)
        v2 ← visit_dirc_rec inner v1
        v3 ← map_err as_on_dir (leave_dir v2)
        visit_dirc_rec rest v3
      in if is_dot name then skip else enter
  visit_dirc_rec (unopenable name e rest) v =
      let skip = visit_dirc_rec rest v in if is_dot name then skip else err (returned e)
  visit_dirc_rec (other name rest) v = visit_dirc_rec rest v

pub record PackFsToWriter : Type 0 where
  pub writer : BufWriter Bytes
  pub depth : ℕ

-- What the walk calls on the file that it writes, whose state is the bytes in it, before its cursor: writing
-- all of some bytes, and flushing; and the kernel's sendfile.
pub record Output : Type 0 where
  pub write_inner : Bytes → Bytes → Option Bytes
  pub flush_inner : Bytes → Option Bytes
  pub sendfile : Bytes → ℕ → Result ℕ ℕ

module _ (o : Output) where
  open o use {write_inner, flush_inner, sendfile}

  -- `self.writer.write_all(bytes).map_err(|_| Error::Write)?`
  unfoldable pub put : Bytes → PackFsToWriter → Result Stop PackFsToWriter
  put bytes w = do
    writer ← ok_or (write_all write_inner w.writer bytes) (returned write)
    ok (record w { writer = writer })

  abbrev pub sent : PackFsToWriter → Option (Result Error Bytes) → Result Stop PackFsToWriter
  sent w none = err unfinished
  sent w (some (err e)) = err (returned e)
  sent w (some (ok out)) = ok (record w { writer = record w.writer { inner = out } })

  -- The buffer is flushed before sendfile writes to the file behind it. The loop of sendfile has one round
  -- more than there are bytes.
  unfoldable pub flush_and_send : ℕ → Bytes → PackFsToWriter → Result Stop PackFsToWriter
  flush_and_send size fd w = do
    writer ← ok_or (BufWriter.flush write_inner flush_inner w.writer) (returned flush)
    sent (record w { writer = writer }) (sendfile_all sendfile (suc size) fd size writer.inner)

  unfoldable pub fs_on_file : Bytes → ℕ → Bytes → PackFsToWriter → Result Stop PackFsToWriter
  fs_on_file name size fd w = do
    ensure (ltb size (2 ^ 32)) (returned write)
    w1 ← put (tag_byte file ∷ []) w
    w2 ← put (name ++ 0 ∷ []) w1
    w3 ← put (to_le_bytes 4 size) w2
    flush_and_send size fd w3

  unfoldable pub fs_on_dir : Bytes → PackFsToWriter → Result Stop PackFsToWriter
  fs_on_dir name w = do
    ensure (leb w.depth max_dir_depth) (returned dir_too_deep)
    w1 ← put (tag_byte dir ∷ []) (record w { depth = w.depth + 1 })
    put (name ++ 0 ∷ []) w1

  unfoldable pub fs_leave_dir : PackFsToWriter → Result Stop PackFsToWriter
  fs_leave_dir w = do
    ensure (not (w.depth == 0)) (returned empty_stack)
    put (tag_byte pop ∷ []) (record w { depth = w.depth - 1 })

  abbrev pub fs_visitor : PackFsVisitor PackFsToWriter
  fs_visitor = record { on_file = fs_on_file; enter_dir = fs_on_dir; leave_dir = fs_leave_dir }

  unfoldable pub into_file : PackFsToWriter → Result Stop Bytes
  into_file w = ok_or (into_inner write_inner w.writer) (returned write)

  -- `pack_dir_to_writer` on a file that holds `out`, once the directory is open.
  unfoldable pub pack_dir_to_writer : Dirents → Bytes → Result Stop Bytes
  pack_dir_to_writer entries out = do
    w ← visit_dirc_rec fs_visitor entries (record { writer = BufWriter.new out; depth = 0 })
    into_file w
