-- ===== src/Peerofs/Dirents.antt =====
-- `Dir::prepare_dirent_data` of peerofs/src/build.rs: how many entries of a directory go into each
-- block.
pub mod Chunks
use program_explorer.Prelude.{
  ℕ, zero, suc, ◌+◌, ◌*◌, ◌%◌, ◌^◌, Bool, List, [], ◌∷◌, ◌++◌, ◌||◌, ◌==◌, ltb, if◌then◌else◌,
  length,
}
use program_explorer.Prelude.Bytes.{Bytes}
use program_explorer.Prelude.Result.{Result, ok, err, ◌>>=◌, ◌>>◌, ensure}

-- What ends the function early: the error it returns, or its panic.
pub data Failure : Type 0 where
  block_no_too_big not_all_children : Failure

-- `size_of::<disk::Dirent>()`
abbrev pub dirent_size : ℕ
dirent_size = 12

abbrev pub u16_max : ℕ
u16_max = 65535

-- The fields of `Dir` that are filled in.
pub record Dir : Type 0 where
  pub start_block : ℕ
  pub n_dirents_per_block : List ℕ
  pub total_size : ℕ

-- The variables of the loop.
pub record Placed : Type 0 where
  pub blocks : List ℕ
  pub len : ℕ
  pub count : ℕ

unfoldable pub place_one : ℕ → Bytes → Placed → Placed
place_one block_size name p =
    let name_start : ℕ = p.len + dirent_size in
    let additional_len : ℕ = dirent_size + length name in
    let next_len : ℕ = p.len + additional_len in
    if ltb block_size next_len || ltb u16_max name_start
    then record { blocks = p.blocks ++ p.count ∷ []; len = additional_len; count = 1 }
    else record { blocks = p.blocks; len = next_len; count = (p.count + 1) % 2 ^ 16 }

unfoldable pub place : ℕ → List Bytes → Placed → Placed
place block_size [] p = p
place block_size (name ∷ names) p = place block_size names (place_one block_size name p)

-- Behind the loop: the last block, if it has an entry.
unfoldable pub close_block : ℕ → Placed → List ℕ × ℕ
close_block block_size p =
    if p.count == 0
    then (p.blocks, block_size * length p.blocks)
    else (p.blocks ++ p.count ∷ [], block_size * length p.blocks + p.len)

abbrev pub sum : List ℕ → ℕ
sum [] = 0
sum (n ∷ ns) = n + sum ns

-- The result is the number of blocks, with the fields as they are then.
unfoldable pub prepare_dirent_data : List Bytes → ℕ → ℕ → Dir → Result Failure (ℕ × Dir)
prepare_dirent_data children block_size start_block dir = do
  ensure (ltb start_block (2 ^ 32)) block_no_too_big
  let p =
      place block_size children (record { blocks = dir.n_dirents_per_block; len = 0; count = 0 })
  let closed = close_block block_size p
  ensure (length children == sum closed.0) not_all_children
  ok (
    length closed.0,
    record { start_block = start_block; n_dirents_per_block = closed.0; total_size = closed.1 },
  )
