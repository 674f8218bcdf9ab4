-- ===== src/Peerofs/Tests.antt =====
-- The theorems on blocks and entries at concrete numbers and names.
mod Edges
mod Entries
mod Images
use program_explorer.Prelude.{
  ℕ, ◌+◌, ◌*◌, ◌/◌, ◌%◌, ◌^◌, ◌<◌, ◌≤◌, ◌≡◌, ◌⊎◌, refl, arith, none, some, List, [], ◌∷◌, length,
}
use program_explorer.Prelude.Bytes.{Bytes, codes, bytes_eq}
use program_explorer.Prelude.Result.{ok, err}
use program_explorer.Peerofs.Blocks.{
  default_block_size_bits, inode_alignment, size_tail_len, zero_fill, addr_to_disk_id,
  no_meta_block, size_tail_len-divides, zero_fill-aligned, addr_to_disk_id-address,
}
use program_explorer.PathBuf.{split_slash, join_slash, is_absolute, starts_with_cur_dir, is_blank}
use program_explorer.PathBuf.Components.{components}
use program_explorer.Peerofs.Tree.{
  Dir, file, default_dir, insert, get, lookup_impl, descend, enter, enter_found, find, put_in,
}
use program_explorer.Peerofs.Tree.Found.{IsName, get-insert}
use program_explorer.Peerofs.Dirents.{
  prepare_dirent_data, place, place_one, close_block, block_no_too_big,
}
use program_explorer.Peerofs.Dirents.Chunks.{IsCut, prepare_dirent_data-IsCut}

abbrev names : List Bytes
names = codes "." ∷ codes ".." ∷ codes "a" ∷ codes "b" ∷ []

abbrev dir : program_explorer.Peerofs.Dirents.Dir
dir = record { start_block = 0; n_dirents_per_block = []; total_size = 0 }

-- Blocks of 32 bytes have room for two such entries.
names_prepared :
    prepare_dirent_data names 32 9 dir
    ≡ ok (2, record { start_block = 9; n_dirents_per_block = 2 ∷ 2 ∷ []; total_size = 58 })
unfolding prepare_dirent_data place place_one close_block
names_prepared = refl

prepare_dirent_data-IsCut_example :
    ((9 < 2 ^ 32)
      → (counts : List ℕ) × (size : ℕ) × (prepare_dirent_data names 32 9 dir
          ≡ ok (
            length counts,
            record { start_block = 9; n_dirents_per_block = counts; total_size = size },
          ))
        × IsCut 32 names counts size)
    × ((2 ^ 32 ≤ 9) → prepare_dirent_data names 32 9 dir ≡ err block_no_too_big)
prepare_dirent_data-IsCut_example =
    prepare_dirent_data-IsCut names 32 9 dir (omega arith) (omega arith)
      (omega arith, (omega arith, (omega arith, (omega arith, tt)))) refl

abbrev root : Dir ℕ ℕ ℕ
root = default_dir 0

a-IsName : IsName (codes "a")
unfolding bytes_eq
a-IsName =
    (record { not_empty = λ e. cc; not_dot = λ e. ground arith; no_slash = omega arith }, refl)

b-IsName : IsName (codes "b")
unfolding bytes_eq
b-IsName =
    (record { not_empty = λ e. cc; not_dot = λ e. ground arith; no_slash = omega arith }, refl)

a_b_inserted : (insert 0 (codes "a/b") (file 5) root).1 ≡ ok tt
unfolding insert lookup_impl descend enter enter_found find components split_slash bytes_eq put_in
    is_absolute starts_with_cur_dir is_blank
a_b_inserted = refl

get-insert_example :
    (get (codes "a/b") (insert 0 (codes "a/b") (file 5) root).0).1 ≡ ok (some (file 5))
unfolding join_slash
get-insert_example =
    get-insert 0 (codes "a") (codes "b" ∷ []) (file 5) root (a-IsName, (b-IsName, tt)) a_b_inserted
