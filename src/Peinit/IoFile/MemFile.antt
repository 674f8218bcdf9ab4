-- ===== src/Peinit/IoFile/MemFile.antt =====
-- A file in memory, with a cursor: what the io file is on both sides.
use program_explorer.Prelude.{
  ℕ, suc, ◌+◌, ◌≡◌, refl, arith, Option, none, some, [], ◌∷◌, ◌++◌, length, take, drop, leb, le→leb,
  append_assoc, length-append, take-append, drop-append, if◌then◌else◌,
}
use program_explorer.Prelude.Bytes.{Bytes}
use program_explorer.Peinit.IoFile.{Read, Write}

pub record MemFile : Type 0 where
  pub bytes : Bytes
  pub at : ℕ

-- The bytes are written over those at the cursor, which moves behind them.
unfoldable pub write_all : Write MemFile
write_all f xs = some (record {
  bytes = take f.at f.bytes ++ xs ++ drop (f.at + length xs) f.bytes;
  at = f.at + length xs;
})

unfoldable pub read_exact : MemFile → ℕ → Option (Bytes × MemFile)
read_exact f n =
    if leb (f.at + n) (length f.bytes)
    then some (take n (drop f.at f.bytes), record f { at = f.at + n })
    else none

abbrev pub reader : Read MemFile
reader = record { read_exact = read_exact; seek = λ f n. some (record f { at = n }) }

-- A file with the cursor behind `front`.
abbrev pub behind : Bytes → Bytes → MemFile
behind front back = record { bytes = front ++ back; at = length front }

drop-add : (a b : Bytes) (n : ℕ) → drop (length a + n) (a ++ b) ≡ drop n b
drop-add [] b n = let e : 0 + n ≡ n = omega arith in rw e refl
drop-add (x ∷ a) b n =
    let e : suc (length a) + n ≡ suc (length a + n) = omega arith in rw e (drop-add a b n)

pub write_all-behind :
    (front back xs : Bytes)
    → write_all (behind front back) xs ≡ some (behind (front ++ xs) (drop (length xs) back))
unfolding write_all
write_all-behind front back xs =
    rw
      (
        take-append front back,
        drop-add front back (length xs),
        length-append front xs,
        append_assoc front xs (drop (length xs) back),
      )
      refl

pub read_exact-behind :
    (front xs back : Bytes) (n : ℕ)
    → n ≡ length xs
    → read_exact (behind front (xs ++ back)) n ≡ some (xs, behind (front ++ xs) back)
unfolding read_exact
read_exact-behind front xs back n e =
    rw
      (
        e,
        le→leb (length front + length xs) (length (front ++ (xs ++ back)))
            (omega (arith, length-append front (xs ++ back), length-append xs back)),
        drop-append front (xs ++ back),
        take-append xs back,
        length-append front xs,
        append_assoc front xs back,
      )
      refl
