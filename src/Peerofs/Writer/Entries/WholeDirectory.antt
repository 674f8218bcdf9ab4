-- ===== src/Peerofs/Writer/Entries/WholeDirectory.antt =====
-- A directory that the builder wrote is read as its children.
use program_explorer.Prelude.{
  ℕ, suc, ◌+◌, ◌-◌, ◌*◌, ◌^◌, ◌≤◌, ◌≡◌, refl, sym, ap, ◌∙◌, arith, Option, some, List, [], ◌∷◌,
  ◌++◌, length, take, length-append, append-nil, append_assoc, map, All, take-front,
}
use mathlib.Core.Path.{subst}
use program_explorer.Prelude.Bytes.{Bytes, to_le_bytes}
use program_explorer.Prelude.Result.{ok}
use program_explorer.Peerofs.Disk.Structs.{zeros}
use program_explorer.Peerofs.Disk.Entries.{
  DirentItem, DirentsIterator, items, new_iterator, loop_fuel, dirent_size,
}
use program_explorer.Peerofs.Dirents.Chunks.{used, total}
use program_explorer.Peerofs.Writer.{Dirent}
use program_explorer.Peerofs.Writer.Entries.{write_blocks}
use program_explorer.Peerofs.Writer.Entries.Written.{
  block_bytes, padded, all_padded, concat, ShowsAll, appending, names, write_blocks-padded,
}
use program_explorer.Peerofs.Writer.Entries.Reading.{length-block_bytes}
use program_explorer.Peerofs.Writer.Entries.Steps.{inside}
use program_explorer.Peerofs.Writer.Entries.ReadBack.{
  IsBlock, fill, behind, dir_bytes, items-blocks, reset_count-next, fill-full, length-fill,
}

-- The names of the items of each block.
abbrev pub name_chunks : List (List DirentItem) → List (List Bytes)
name_chunks cs = map (λ c. map (λ e. e.name) c) cs

used-names :
    (c : List DirentItem) → used (map (λ e. e.name) c) ≡ length c * dirent_size + length (names c)
used-names [] = refl
used-names (e ∷ c) = omega (arith, used-names c, length-append e.name (names c))

-- The zeros behind the last block.
abbrev last_fill : List DirentItem → List (List DirentItem) → ℕ
last_fill c [] = fill c
last_fill c (d ∷ cs) = last_fill d cs

all_padded-dir_bytes :
    (c : List DirentItem) (cs : List (List DirentItem))
    → all_padded (c ∷ cs) ≡ dir_bytes c cs ++ zeros (last_fill c cs)
unfolding to_le_bytes
all_padded-dir_bytes c [] =
    append-nil (padded c) ∙ ap (λ t. t ++ zeros (fill c)) (sym (append-nil (block_bytes c)))
all_padded-dir_bytes c (d ∷ cs) =
    let zs : Bytes = zeros (last_fill d cs) in
    ap (λ t. padded c ++ t) (all_padded-dir_bytes d cs)
    ∙ sym (append_assoc (padded c) (dir_bytes d cs) zs)
    ∙ ap (λ t. t ++ zs) (append_assoc (block_bytes c) (zeros (fill c)) (dir_bytes d cs))

-- The size is what the placement of the names gave.
length-dir_bytes :
    (c : List DirentItem) (cs : List (List DirentItem))
    → IsBlock c
    → All IsBlock cs
    → length (dir_bytes c cs) ≡ total (2 ^ 12) (name_chunks (c ∷ cs))
unfolding to_le_bytes
length-dir_bytes c [] h hs =
    omega (arith, length-append (block_bytes c) (zeros 0 ++ []), used-names c, length-block_bytes c)
length-dir_bytes c (d ∷ cs) h (k, ks) = omega (
  arith,
  length-append (block_bytes c) (zeros (fill c) ++ dir_bytes d cs),
  length-append (zeros (fill c)) (dir_bytes d cs),
  length-fill c,
  fill-full c h,
  length-dir_bytes d cs k ks,
)

-- There is a byte for each item at least.
concat-bytes :
    (c : List DirentItem) (cs : List (List DirentItem))
    → length (concat (c ∷ cs)) ≤ length (dir_bytes c cs)
concat-bytes c [] =
    omega (
      arith,
      length-append c [],
      length-append (block_bytes c) (zeros 0 ++ []),
      length-block_bytes c,
    )
concat-bytes c (d ∷ cs) = omega (
  arith,
  length-append c (concat (d ∷ cs)),
  length-append (block_bytes c) (zeros (fill c) ++ dir_bytes d cs),
  length-append (zeros (fill c)) (dir_bytes d cs),
  length-block_bytes c,
  concat-bytes d cs,
)

All-fits :
    (cs : List (List DirentItem)) → All IsBlock cs → All (λ c. length (block_bytes c) ≤ 2 ^ 12) cs
All-fits [] hs = tt
All-fits (c ∷ cs) (h, hs) = (h.fits, All-fits cs hs)

-- A directory goes out and comes back: of children that are divided into blocks (each has an entry,
-- fits 2^12 bytes, and has numbers of 8 bytes and names without a zero byte) everything is written,
-- and the reader's loop over as many bytes as the placement of the names took for its size sees, with
-- the fuel for these bytes, all children in their order, with their inode numbers, kinds and names.
pub items-write_blocks :
    (parents : List ℕ) (own : Option ℕ) (css : List (List (Bytes × Dirent))) (c : List DirentItem)
    (cs : List (List DirentItem))
    → ShowsAll parents own css (c ∷ cs)
    → IsBlock c
    → All IsBlock cs
    → (written : Bytes) × (it : DirentsIterator) × (write_blocks appending parents own
          (map length (c ∷ cs))
          []
          (concat css)
        ≡ ok (written, []))
      × (let bytes : Bytes = take (total (2 ^ 12) (name_chunks (c ∷ cs))) written in
          (new_iterator (bytes, []) (2 ^ 12) ≡ ok it)
          × (items (loop_fuel (bytes, [])) it ≡ some (ok (concat (c ∷ cs)))))
unfolding new_iterator
items-write_blocks parents own css c cs s h hs =
    let zs : Bytes = zeros (last_fill c cs) in
    let n : ℕ = length (dir_bytes c cs) in
    let all : List DirentItem = concat (c ∷ cs) in
    let it : DirentsIterator = inside 0 c (behind c cs) (some []) (2 ^ 12) in
    let size : total (2 ^ 12) (name_chunks (c ∷ cs)) ≡ n = sym (length-dir_bytes c cs h hs) in
    let front : take (total (2 ^ 12) (name_chunks (c ∷ cs))) (dir_bytes c cs ++ zs)
        ≡ dir_bytes c cs =
      take-front (total (2 ^ 12) (name_chunks (c ∷ cs))) (dir_bytes c cs) zs size in
    let fuel : length all + suc (n * n + n - length all) ≡ loop_fuel (dir_bytes c cs, []) =
      omega (arith, concat-bytes c cs) in
    (
      dir_bytes c cs ++ zs,
      it,
      write_blocks-padded parents own css (c ∷ cs) [] s (h.fits, All-fits cs hs)
          ∙ ap (λ t. ok (t, [])) (all_padded-dir_bytes c cs),
      (
        rw (front, reset_count-next c (behind c cs) 0 0 h) refl,
        rw front (
            subst (λ k. items k it ≡ some (ok all)) fuel
              (items-blocks cs c (n * n + n - length all) h hs)),
      ),
    )
