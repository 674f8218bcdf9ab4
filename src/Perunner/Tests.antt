-- ===== src/Perunner/Tests.antt =====
-- The theorems on the size of the io file at concrete sizes.
use program_explorer.Prelude.{ℕ, ◌+◌, ◌≡◌, refl}
use program_explorer.Prelude.Result.{Result, ok}
use program_explorer.Prelude.Bytes.{Bytes}
use program_explorer.Peinit.Types.{ℤ, pos}
use program_explorer.Perunner.IoFile.{pmem_align_size, round_up_to, div_ceil}

round_up_to_cases :
    (round_up_to pmem_align_size 0 ≡ pmem_align_size)
    × (round_up_to pmem_align_size (pmem_align_size + 1) ≡ pmem_align_size + pmem_align_size)
unfolding round_up_to div_ceil
round_up_to_cases = (refl, refl)

-- A kernel of which a file is its size.
abbrev fstat : ℕ → Result Bytes ℤ
fstat n = ok (pos n)

abbrev ftruncate : ℕ → ℕ → Result Bytes ℕ
ftruncate n m = ok m
