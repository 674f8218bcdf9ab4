-- ===== src/Peerofs/Writer/Entries/ReadBack.antt =====
-- Entries that the builder wrote are what the reader's loop sees.
use program_explorer.Prelude.{
  ℕ, suc, ◌+◌, ◌^◌, ◌<◌, ◌≤◌, ◌≡◌, refl, sym, ap, arith, Option, none, some, List, [], ◌∷◌, ◌++◌,
  length, length-append, append-nil, append_assoc, All,
}
use mathlib.Core.Path.{subst}
use program_explorer.Prelude.Bytes.{Bytes, length-to_le_bytes}
use program_explorer.Prelude.Result.{ok}
use program_explorer.Peerofs.Blocks.{block_size, default_block_size_bits, zero_fill}
use program_explorer.Peerofs.Disk.Structs.{zeros}
use program_explorer.Peerofs.Disk.Entries.{
  DirentItem, DirentsIterator, next, items, items_with, prepend_item, min, reset_count,
}
use program_explorer.Peerofs.Writer.Entries.Written.{block_bytes, concat}
use program_explorer.Peerofs.Writer.Entries.Reading.{IsItem, length-block_bytes}
use program_explorer.Peerofs.Writer.Entries.Steps.{
  inside, next-middle, next-last, reset_count-block, reset_count-end,
}

items-next :
    (n k : ℕ) (it it' : DirentsIterator) (e : DirentItem) (ys : List DirentItem)
    → n ≡ suc k
    → next it ≡ some (it', ok e)
    → items k it' ≡ some (ok ys)
    → items n it ≡ some (ok (e ∷ ys))
unfolding items items_with prepend_item
items-next n k it it' e ys h p q = rw (h, p, q) refl

-- The loop over the rest of a block: behind the last entry it goes on with `it`.
items-block :
    (b : List DirentItem) (a : List DirentItem) (e : DirentItem) (n m : ℕ) (rest : Bytes)
    (remaining : Option Bytes) (block_size : ℕ) (it : DirentsIterator) (ys : List DirentItem)
    → length (block_bytes (a ++ e ∷ b)) ≤ 2 ^ 12
    → IsItem e
    → All IsItem b
    → min (length (block_bytes (a ++ e ∷ b) ++ (zeros n ++ rest))) block_size
      ≡ length (block_bytes (a ++ e ∷ b)) + n
    → ((i : ℕ)
        → reset_count (record {
          bytes = rest;
          remaining = remaining;
          i = i;
          count = length (a ++ e ∷ b);
          block_size = block_size;
        })
          ≡ (it, ok tt))
    → items m it ≡ some (ok ys)
    → items
        (length (e ∷ b) + m)
        (inside (length a) (a ++ e ∷ b) (zeros n ++ rest) remaining block_size)
      ≡ some (ok (e ∷ b ++ ys))
items-block [] a e n m rest remaining bs it ys small i js h r l =
    items-next (1 + m) m (inside (length a) (a ++ e ∷ []) (zeros n ++ rest) remaining bs) it e ys
      (omega arith) (next-last a e n rest remaining bs it small i h (r (length a))) l
items-block (f ∷ b) a e n m rest remaining bs it ys small i (j, js) h r l =
    let es : List DirentItem = a ++ e ∷ f ∷ b in
    let eq : (a ++ e ∷ []) ++ f ∷ b ≡ es = append_assoc a (e ∷ []) (f ∷ b) in
    let k : length (a ++ e ∷ []) ≡ length a + 1 = omega (arith, length-append a (e ∷ [])) in
    let more : items (length (f ∷ b) + m) (inside (length a + 1) es (zeros n ++ rest) remaining bs)
        ≡ some (ok (f ∷ b ++ ys)) =
      rw (sym eq, sym k)
        (items-block b (a ++ e ∷ []) f n m rest remaining bs it ys (rw eq small) j js (rw eq h)
          (rw eq r) l) in
    items-next (length (e ∷ f ∷ b) + m) (length (f ∷ b) + m)
      (inside (length a) es (zeros n ++ rest) remaining bs)
      (inside (length a + 1) es (zeros n ++ rest) remaining bs) e (f ∷ b ++ ys) (omega arith)
      (next-middle a e f b (zeros n ++ rest) remaining bs small i j) more

abbrev pub fill : List DirentItem → ℕ
fill es = zero_fill (length (block_bytes es)) (block_size default_block_size_bits)

-- What follows a block: zeros up to its end and the next block, or nothing.
abbrev pub behind : List DirentItem → List (List DirentItem) → Bytes
behind c [] = zeros 0 ++ []
behind c (d ∷ cs) = zeros (fill c) ++ (block_bytes d ++ behind d cs)

-- The bytes of a directory, as far as its size goes.
abbrev pub dir_bytes : List DirentItem → List (List DirentItem) → Bytes
dir_bytes c cs = block_bytes c ++ behind c cs

-- A block has an entry, it fits, and its entries can be written.
pub record IsBlock (c : List DirentItem) : Type 0 where
  pub some_entry : 0 < length c
  pub fits : length (block_bytes c) ≤ 2 ^ 12
  pub all_items : All IsItem c

pub fill-full : (c : List DirentItem) → IsBlock c → length (block_bytes c) + fill c ≡ 2 ^ 12
unfolding zero_fill
fill-full c h = ground (arith, h.fits, length-block_bytes c, h.some_entry)

items-end :
    (m i count bs : ℕ)
    → items (suc m) (record { bytes = []; remaining = none; i = 0; count = 0; block_size = bs })
      ≡ some (ok [])
unfolding items items_with next
items-end m i count bs = refl

pub reset_count-next :
    (d : List DirentItem) (rest : Bytes) (i count : ℕ)
    → IsBlock d
    → reset_count (record {
      bytes = block_bytes d ++ rest;
      remaining = some [];
      i = i;
      count = count;
      block_size = 2 ^ 12;
    })
      ≡ (inside 0 d rest (some []) (2 ^ 12), ok tt)
reset_count-next [] rest i count h = absurd (omega (arith, h.some_entry))
reset_count-next (e ∷ b) rest i count h =
    reset_count-block e b rest (some []) i count (2 ^ 12) h.fits h.all_items.0

pub length-fill : (c : List DirentItem) → length (zeros (fill c)) ≡ fill c
length-fill c = length-to_le_bytes (fill c) 0

pub items-blocks :
    (cs : List (List DirentItem)) (c : List DirentItem) (m : ℕ)
    → IsBlock c
    → All IsBlock cs
    → items (length (concat (c ∷ cs)) + suc m) (inside 0 c (behind c cs) (some []) (2 ^ 12))
      ≡ some (ok (concat (c ∷ cs)))
items-blocks cs [] m h hs = absurd (omega (arith, h.some_entry))
items-blocks [] (e ∷ b) m h hs =
    let c : List DirentItem = e ∷ b in
    let len : length (block_bytes c ++ (zeros 0 ++ [])) ≡ length (block_bytes c) = omega (
      arith,
      length-append (block_bytes c) (zeros 0 ++ []),
      length-append (zeros 0) [],
      length-to_le_bytes 0 0,
    ) in
    let l : min (length (block_bytes c ++ (zeros 0 ++ []))) (2 ^ 12) ≡ length (block_bytes c) + 0 =
      ground (arith, len, h.fits) in
    let same : length (b ++ []) ≡ length b = ap length (append-nil b) in
    rw same (
      items-block b [] e 0 (suc m) [] (some []) (2 ^ 12)
        (record { bytes = []; remaining = none; i = 0; count = 0; block_size = 2 ^ 12 }) [] h.fits
        h.all_items.0 h.all_items.1 l (λ i. reset_count-end i (length c) (2 ^ 12))
        (items-end m 0 0 (2 ^ 12)))
items-blocks (d ∷ cs) (e ∷ b) m h (k, ks) =
    let c : List DirentItem = e ∷ b in
    let ys : List DirentItem = concat (d ∷ cs) in
    let rest : Bytes = block_bytes d ++ behind d cs in
    let full = fill-full c h in
    let len = length-append (block_bytes c) (zeros (fill c) ++ rest) in
    let len2 = length-append (zeros (fill c)) rest in
    let l : min (length (block_bytes c ++ (zeros (fill c) ++ rest))) (2 ^ 12)
        ≡ length (block_bytes c) + fill c =
      ground (arith, len, len2, length-fill c, full) in
    let same : length (c ++ ys) + suc m ≡ length c + (length ys + suc m) =
      omega (arith, length-append c ys) in
    let run =
      items-block b [] e (fill c) (length ys + suc m) rest (some []) (2 ^ 12)
        (inside 0 d (behind d cs) (some []) (2 ^ 12)) ys h.fits h.all_items.0 h.all_items.1 l
        (λ i. reset_count-next d (behind d cs) i (length c) k) (items-blocks cs d m k ks) in
    subst (λ n. items n (inside 0 c (behind c (d ∷ cs)) (some []) (2 ^ 12)) ≡ some (ok (c ++ ys)))
      (sym same) run
