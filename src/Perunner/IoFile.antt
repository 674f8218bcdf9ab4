-- ===== src/Perunner/IoFile.antt =====
-- The size of the io file (perunner/src/iofile.rs): a multiple of the alignment of a pmem device. The
-- calls of the kernel, fstat and ftruncate, are parameters.
use program_explorer.Prelude.{
  ℕ, zero, suc, ◌+◌, ◌*◌, ◌/◌, ◌%◌, ◌^◌, ◌≤◌, ◌<◌, ◌≡◌, refl, arith, Bool, true, false, ◌==◌,
  if◌then◌else◌, ltb, Bool-cases, ==_iff, sym, inl, inr,
}
use program_explorer.Prelude.Result.{Result, ok, ◌>>=◌}
use program_explorer.Peinit.Types.{ℤ, pos, negsuc}

abbrev pub pmem_align_size : ℕ
pmem_align_size = 0x200000

-- `x.div_ceil(n)`
unfoldable pub div_ceil : ℕ → ℕ → ℕ
div_ceil x n = if ltb 0 (x % n) then x / n + 1 else x / n

-- `round_up_to::<N>` on u64.
unfoldable pub round_up_to : ℕ → ℕ → ℕ
unfolding div_ceil
round_up_to n x = if x == 0 then n else (div_ceil x n * n) % 2 ^ 64

-- `stat.st_size.try_into().unwrap_or(0)` from i64 to u64.
unfoldable pub size_of : ℤ → ℕ
size_of (pos n) = n
size_of (negsuc n) = 0

module _ {F E : Type 0} (fstat : F → Result E ℤ) (ftruncate : F → ℕ → Result E F) where
  abbrev pub truncate_unless : Bool → F → ℕ → Result E (ℕ × F)
  truncate_unless true f newlen = ok (newlen, f)
  truncate_unless false f newlen = do f' ← ftruncate f newlen; ok (newlen, f')

  unfoldable pub round_up_file_to_pmem_size : F → Result E (ℕ × F)
  round_up_file_to_pmem_size f = do
    st_size ← fstat f
    let newlen = round_up_to pmem_align_size (size_of st_size)
    truncate_unless (size_of st_size == newlen) f newlen

round_up_to-bounds :
    (x : ℕ)
    → x < 2 ^ 63
    → let new : ℕ = round_up_to pmem_align_size x in
      (new % pmem_align_size ≡ 0) × (x ≤ new) × (0 < new) × (0 < x → new < x + pmem_align_size)
unfolding round_up_to div_ceil
round_up_to-bounds x h = (ground arith, ground arith, ground arith, λ k. ground arith)

round_up_to-fixed :
    (n : ℕ) → n % pmem_align_size ≡ 0 → 0 < n → n < 2 ^ 64 → round_up_to pmem_align_size n ≡ n
unfolding round_up_to div_ceil
round_up_to-fixed n h k l = ground arith

-- For every size that an i64 holds, the rounded size is a multiple of the alignment, not smaller, not
-- 0 and, but for the empty file, less than one alignment larger; and rounding again changes nothing.
pub round_up_to-multiple :
    (x : ℕ)
    → x < 2 ^ 63
    → let new : ℕ = round_up_to pmem_align_size x in
      (new % pmem_align_size ≡ 0)
      × (x ≤ new)
      × (0 < new)
      × (0 < x → new < x + pmem_align_size)
      × (round_up_to pmem_align_size new ≡ new)
round_up_to-multiple x h =
    let b = round_up_to-bounds x h in
    (b.0, b.1, b.2, b.3, round_up_to-fixed (round_up_to pmem_align_size x) b.0 b.2 (below x h b.3))
  where
    below :
        (x : ℕ)
        → x < 2 ^ 63
        → (0 < x → round_up_to pmem_align_size x < x + pmem_align_size)
        → round_up_to pmem_align_size x < 2 ^ 64
    below zero h b = unfold round_up_to in omega arith
    below (suc x) h b = omega (arith, b (omega arith))

stays :
    {F E : Type 0} (fstat : F → Result E ℤ) (ftruncate : F → ℕ → Result E F) (g : F) (n : ℕ)
    → fstat g ≡ ok (pos n)
    → round_up_to pmem_align_size n ≡ n
    → round_up_file_to_pmem_size fstat ftruncate g ≡ ok (n, g)
unfolding round_up_file_to_pmem_size size_of
stays fstat ftruncate g n s e =
    let same : (n == n) ≡ true = (==_iff n n).1 refl in rw (s, e, same) refl

-- If the kernel gives the size of the file, and truncating it to the rounded size succeeds and gives
-- a file of that size, then the file is rounded up to that size, and rounding the new file up again
-- leaves it as it is.
pub round_up_file_to_pmem_size-twice :
    {F E : Type 0} (fstat : F → Result E ℤ) (ftruncate : F → ℕ → Result E F) (f f' : F) (x : ℕ)
    → x < 2 ^ 63
    → fstat f ≡ ok (pos x)
    → ftruncate f (round_up_to pmem_align_size x) ≡ ok f'
    → fstat f' ≡ ok (pos (round_up_to pmem_align_size x))
    → (g : F) × (round_up_file_to_pmem_size fstat ftruncate f
        ≡ ok (round_up_to pmem_align_size x, g))
      × (fstat g ≡ ok (pos (round_up_to pmem_align_size x)))
      × (round_up_file_to_pmem_size fstat ftruncate g ≡ ok (round_up_to pmem_align_size x, g))
unfolding round_up_file_to_pmem_size size_of
round_up_file_to_pmem_size-twice fstat ftruncate f f' x h s t s' =
    elim (Bool-cases (x == round_up_to pmem_align_size x)) [
      | inl e ↦
          let same : round_up_to pmem_align_size x ≡ x =
            sym ((==_iff x (round_up_to pmem_align_size x)).0 e) in
          rw same (f, stays fstat ftruncate f x s same, s, stays fstat ftruncate f x s same)
      | inr e ↦ (
        f',
        rw (s, e, t) refl,
        s',
        stays fstat ftruncate f' (round_up_to pmem_align_size x) s' (round_up_to-multiple x h).4,
      )
    ]
