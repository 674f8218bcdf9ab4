-- ===== src/Peerofs/Writer/Entries/Steps.antt =====
-- The steps of the iterator in a block of entries as it was written.
use program_explorer.Prelude.{
  ℕ, zero, suc, ◌+◌, ◌*◌, ◌/◌, ◌%◌, ◌^◌, ◌<◌, ◌≤◌, ◌≡◌, refl, sym, ap, ◌∙◌, arith, true, false,
  Option, none, some, List, [], ◌∷◌, ◌++◌, length, ◌==◌, ltb, length-append, append-nil,
  append_assoc, lt→ltb, All, drop, drop-front,
}
use program_explorer.Prelude.Bytes.{Bytes, to_le_bytes, length-to_le_bytes}
use program_explorer.Peerofs.Disk.Structs.{zeros}
use program_explorer.Prelude.Result.{ok}
use program_explorer.Peerofs.Disk.{get_range, div_mod_u16}
use program_explorer.Peerofs.Disk.Entries.{
  DirentItem, DirentsIterator, dirent_bytes, dirent_size, next, next_impl, next_at, next_item,
  name_of, name_before, name_last, name_end, leave_block, min, until_zero, reset_count,
  count_unless_empty, count_entries, refill, dirent_from_prefix,
}
use program_explorer.Peerofs.Disk.Entries.RoundTrip.{
  get_range-append, dirent_from_prefix-append, file_type_from-number,
}
use program_explorer.Peerofs.Writer.Entries.Written.{headers, names, block_bytes, length-headers}
use program_explorer.Peerofs.Writer.Entries.Reading.{
  IsItem, header, IsDirent-header, name_at, name_at-lt, get-current, get-following, get_range-name,
  name_end-ordered, length-block_bytes, length-names, names-append,
}

-- The iterator in a block of the entries `es`, of which it has passed `n`.
abbrev pub inside : ℕ → List DirentItem → Bytes → Option Bytes → ℕ → DirentsIterator
inside n es rest remaining block_size = record {
  bytes = block_bytes es ++ rest;
  remaining = remaining;
  i = n;
  count = length es;
  block_size = block_size;
}

-- A step over an entry that another one follows.
pub next-middle :
    (a : List DirentItem) (e f : DirentItem) (b : List DirentItem) (rest : Bytes)
    (remaining : Option Bytes) (block_size : ℕ)
    → length (block_bytes (a ++ e ∷ f ∷ b)) ≤ 2 ^ 12
    → IsItem e
    → IsItem f
    → next (inside (length a) (a ++ e ∷ f ∷ b) rest remaining block_size)
      ≡ some (inside (length a + 1) (a ++ e ∷ f ∷ b) rest remaining block_size, ok e)
unfolding next next_impl next_at next_item name_of name_before
next-middle a e f b rest remaining block_size small i j =
    let es : List DirentItem = a ++ e ∷ f ∷ b in
    let it : DirentsIterator = inside (length a) es rest remaining block_size in
    let l = length-append a (e ∷ f ∷ b) in
    let p : ltb (length a) (length es) ≡ true = lt→ltb (length a) (length es) (omega (arith, l)) in
    let q : ltb (length a + 1) (length es) ≡ true =
      lt→ltb (length a + 1) (length es) (omega (arith, l)) in
    let at : ℕ = name_at a e (f ∷ b) in
    let o : name_end at (at + length e.name) ≡ at + length e.name =
      name_end-ordered at (at + length e.name) (omega arith)
        (omega (arith, name_at-lt a e (f ∷ b) small)) in
    rw
      (
        p,
        get-current it a e (f ∷ b) rest refl small i,
        file_type_from-number e.file_type,
        q,
        get-following it a e f b rest refl small j,
        o,
        get_range-name a e (f ∷ b) rest,
      )
      refl

until_zero-zeros :
    (name : Bytes) (n : ℕ) → All (λ b. 0 < b) name → until_zero (name ++ zeros n) ≡ name
unfolding until_zero to_le_bytes
until_zero-zeros [] zero h = refl
until_zero-zeros [] (suc n) h = refl
until_zero-zeros (x ∷ name) n (h, hs) =
    let e : (x == 0) ≡ false = ground arith in rw (e, until_zero-zeros name n hs) refl

-- The last name, with the zeros behind it.
slice_last :
    (a : List DirentItem) (e : DirentItem) (n : ℕ) (rest : Bytes)
    → let es = a ++ e ∷ [] in
      get_range (block_bytes es ++ (zeros n ++ rest)) (name_at a e []) (length (block_bytes es) + n)
      ≡ ok (e.name ++ zeros n)
slice_last a e n rest =
    let es : List DirentItem = a ++ e ∷ [] in
    let hs : Bytes = headers (length es * dirent_size) es in
    let l = length-append hs (names a) in
    let k = length-headers (length es * dirent_size) es in
    let m = length-append e.name (zeros n) in
    let z = length-to_le_bytes n 0 in
    let o = length-block_bytes es in
    let t = length-names a e [] in
    let eq : block_bytes es ++ (zeros n ++ rest)
        ≡ (hs ++ names a) ++ ((e.name ++ zeros n) ++ rest) =
      ap (λ t. (hs ++ t) ++ (zeros n ++ rest)) (names-append a (e ∷ []))
      ∙ ap (λ t. t ++ (zeros n ++ rest)) (sym (append_assoc hs (names a) (e.name ++ [])))
      ∙ append_assoc (hs ++ names a) (e.name ++ []) (zeros n ++ rest)
      ∙ ap (λ t. (hs ++ names a) ++ (t ++ (zeros n ++ rest))) (append-nil e.name)
      ∙ ap (λ t. (hs ++ names a) ++ t) (sym (append_assoc e.name (zeros n) rest)) in
    rw eq (
      get_range-append (name_at a e []) (length (block_bytes es) + n) (hs ++ names a)
        (e.name ++ zeros n) rest (omega (arith, l, k)) (omega (arith, l, k, m, z, o, t)))

dropped :
    (es : List DirentItem) (n : ℕ) (rest : Bytes)
    → drop (length (block_bytes es) + n) (block_bytes es ++ (zeros n ++ rest)) ≡ rest
dropped es n rest =
    let l = length-append (block_bytes es) (zeros n) in
    let z = length-to_le_bytes n 0 in
    rw (sym (append_assoc (block_bytes es) (zeros n) rest)) (
      drop-front (length (block_bytes es) + n) (block_bytes es ++ zeros n) rest
        (omega (arith, l, z)))

-- A step over the last entry of a block that ends with n zeros.
pub next-last :
    (a : List DirentItem) (e : DirentItem) (n : ℕ) (rest : Bytes) (remaining : Option Bytes)
    (block_size : ℕ) (it : DirentsIterator)
    → length (block_bytes (a ++ e ∷ [])) ≤ 2 ^ 12
    → IsItem e
    → min (length (block_bytes (a ++ e ∷ []) ++ (zeros n ++ rest))) block_size
      ≡ length (block_bytes (a ++ e ∷ [])) + n
    → reset_count (record {
      bytes = rest;
      remaining = remaining;
      i = length a;
      count = length (a ++ e ∷ []);
      block_size = block_size;
    })
      ≡ (it, ok tt)
    → next (inside (length a) (a ++ e ∷ []) (zeros n ++ rest) remaining block_size)
      ≡ some (it, ok e)
unfolding next next_impl next_at next_item name_of name_last leave_block
next-last a e n rest remaining block_size it small i h r =
    let es : List DirentItem = a ++ e ∷ [] in
    let from : DirentsIterator = inside (length a) es (zeros n ++ rest) remaining block_size in
    let l = length-append a (e ∷ []) in
    let p : ltb (length a) (length es) ≡ true = lt→ltb (length a) (length es) (omega (arith, l)) in
    let q : ltb (length a + 1) (length es) ≡ false = ground (arith, l) in
    rw
      (
        p,
        get-current from a e [] (zeros n ++ rest) refl small i,
        file_type_from-number e.file_type,
        q,
        h,
        slice_last a e n rest,
        dropped es n rest,
        r,
      )
      (rw (until_zero-zeros e.name n i.no_zero) refl)

-- A block that comes next.
pub reset_count-block :
    (e : DirentItem) (b : List DirentItem) (rest : Bytes) (remaining : Option Bytes)
    (n count block_size : ℕ)
    → length (block_bytes (e ∷ b)) ≤ 2 ^ 12
    → IsItem e
    → reset_count (record {
      bytes = block_bytes (e ∷ b) ++ rest;
      remaining = remaining;
      i = n;
      count = count;
      block_size = block_size;
    })
      ≡ (inside 0 (e ∷ b) rest remaining block_size, ok tt)
unfolding reset_count count_unless_empty count_entries div_mod_u16
reset_count-block e b rest remaining n count block_size small i =
    let es : List DirentItem = e ∷ b in
    let off : ℕ = length es * dirent_size in
    let tail : Bytes = headers (off + length e.name) b in
    let eq : block_bytes es ++ rest ≡ dirent_bytes (header off e) ++ (tail ++ (names es ++ rest)) =
      append_assoc (dirent_bytes (header off e) ++ tail) (names es) rest
      ∙ append_assoc (dirent_bytes (header off e)) tail (names es ++ rest) in
    let l = length-append (block_bytes es) rest in
    let o = length-block_bytes es in
    let p : (length (block_bytes es ++ rest) == 0) ≡ false = ground (arith, l, o) in
    let d : dirent_from_prefix (block_bytes es ++ rest) ≡ ok (header off e) = rw eq (
      dirent_from_prefix-append (header off e) (tail ++ (names es ++ rest))
        (IsDirent-header off e i (omega (arith, o, small)))) in
    let r : (off % dirent_size == 0) ≡ true = ground arith in
    let q : off / dirent_size ≡ length es = omega arith in rw (p, d, r, q) refl

-- No bytes are left, nor any tail.
pub reset_count-end :
    (n count block_size : ℕ)
    → reset_count
        (record { bytes = []; remaining = some []; i = n; count = count; block_size = block_size })
      ≡ (record { bytes = []; remaining = none; i = 0; count = 0; block_size = block_size }, ok tt)
unfolding reset_count count_unless_empty refill
reset_count-end n count block_size = refl
