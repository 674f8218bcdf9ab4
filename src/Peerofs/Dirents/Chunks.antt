-- ===== src/Peerofs/Dirents/Chunks.antt =====
-- The placement cuts the names into chunks, one for each block.
use program_explorer.Prelude.{
  ℕ, suc, ◌+◌, ◌*◌, ◌^◌, ◌<◌, ◌≤◌, ◌≡◌, refl, sym, ap, ◌∙◌, arith, true, false, List, [], ◌∷◌, ◌++◌,
  ◌||◌, ◌==◌, ltb, map, length, length-append, All, All-append, append_assoc, append-nil,
  Bool-cases, lt→ltb, ==_iff, inl, inr,
}
use mathlib.Core.Path.{subst}
use program_explorer.Prelude.Bytes.{Bytes}
use program_explorer.Prelude.Result.{ok, err}
use program_explorer.Peerofs.Dirents.{
  Dir, Placed, dirent_size, u16_max, place_one, place, close_block, sum, prepare_dirent_data,
  block_no_too_big,
}

-- The bytes that a block's entries take: an entry and its name each.
abbrev pub used : List Bytes → ℕ
used [] = 0
used (name ∷ names) = dirent_size + length name + used names

abbrev pub concat : List (List Bytes) → List Bytes
concat [] = []
concat (c ∷ cs) = c ++ concat cs

used-append : (a b : List Bytes) → used (a ++ b) ≡ used a + used b
used-append [] b = omega arith
used-append (n ∷ a) b = omega (arith, used-append a b)

used-length : (a : List Bytes) → dirent_size * length a ≤ used a
used-length [] = omega arith
used-length (n ∷ a) = omega (arith, used-length a)

concat-snoc : (cs : List (List Bytes)) (c : List Bytes) → concat (cs ++ c ∷ []) ≡ concat cs ++ c
concat-snoc [] c = append-nil c
concat-snoc (d ∷ cs) c = ap (λ t. d ++ t) (concat-snoc cs c) ∙ sym (append_assoc d (concat cs) c)

map-snoc :
    (cs : List (List Bytes)) (c : List Bytes)
    → map length (cs ++ c ∷ []) ≡ map length cs ++ length c ∷ []
map-snoc [] c = refl
map-snoc (d ∷ cs) c = ap (λ t. length d ∷ t) (map-snoc cs c)

-- A block's entries: there is one at least, and they fit the block.
pub record IsChunk (block_size : ℕ) (c : List Bytes) : Type 0 where
  pub some_entry : 0 < length c
  pub fits : used c ≤ block_size

-- The variables of the loop behind the names `seen`: full chunks, and one that is being filled.
record IsPlaced (block_size : ℕ) (seen : List Bytes) (p : Placed) : Type 0 where
  chunks : List (List Bytes)
  current : List Bytes
  seen_eq : concat chunks ++ current ≡ seen
  blocks_eq : map length chunks ≡ p.blocks
  full : All (IsChunk block_size) chunks
  len_eq : used current ≡ p.len
  count_eq : length current ≡ p.count
  first : 0 < length seen → 0 < length current
  fits : p.len ≤ block_size

-- A block is only closed when it has an entry, since any entry fits an empty block.
not_empty :
    (c : List Bytes) (block_size len n : ℕ)
    → used c ≡ len
    → dirent_size + n ≤ block_size
    → ltb block_size (len + (dirent_size + n)) || ltb u16_max (len + dirent_size) ≡ true
    → 0 < length c
not_empty [] block_size len n e h k = absurd (ground arith)
not_empty (x ∷ c) block_size len n e h k = omega arith

IsPlaced-place_one :
    (block_size : ℕ) (seen : List Bytes) (name : Bytes) (p : Placed)
    → block_size ≤ 2 ^ 16
    → dirent_size + length name ≤ block_size
    → IsPlaced block_size seen p
    → IsPlaced block_size (seen ++ name ∷ []) (place_one block_size name p)
unfolding place_one
IsPlaced-place_one block_size seen name p small h i =
    elim (Bool-cases
      (ltb block_size (p.len + (dirent_size + length name)) || ltb u16_max (p.len + dirent_size))) [
        | inl e ↦ rw e (record {
          chunks = i.chunks ++ i.current ∷ [];
          current = name ∷ [];
          seen_eq = ap (λ t. t ++ name ∷ []) (concat-snoc i.chunks i.current ∙ i.seen_eq);
          blocks_eq =
              map-snoc i.chunks i.current
              ∙ ap (λ t. t ++ length i.current ∷ []) i.blocks_eq
              ∙ ap (λ n. p.blocks ++ n ∷ []) i.count_eq;
          full = All-append (IsChunk block_size) i.chunks (i.current ∷ []) i.full (
            record {
              some_entry = not_empty i.current block_size p.len (length name) i.len_eq h e;
              fits = omega (arith, i.len_eq, i.fits);
            },
            tt,
          );
          len_eq = omega arith;
          count_eq = refl;
          first = λ k. omega arith;
          fits = h;
        })
        | inr e ↦ rw e (record {
          chunks = i.chunks;
          current = i.current ++ name ∷ [];
          seen_eq =
              sym (append_assoc (concat i.chunks) i.current (name ∷ []))
              ∙ ap (λ t. t ++ name ∷ []) i.seen_eq;
          blocks_eq = i.blocks_eq;
          full = i.full;
          len_eq = omega (arith, used-append i.current (name ∷ []), i.len_eq);
          count_eq = omega (
            arith,
            length-append i.current (name ∷ []),
            i.count_eq,
            used-length i.current,
            i.len_eq,
            i.fits,
          );
          first = λ k. omega (arith, length-append i.current (name ∷ []));
          fits = ground (arith, i.fits);
        })
      ]

IsPlaced-place :
    (block_size : ℕ) (seen names : List Bytes) (p : Placed)
    → block_size ≤ 2 ^ 16
    → All (λ n. dirent_size + length n ≤ block_size) names
    → IsPlaced block_size seen p
    → IsPlaced block_size (seen ++ names) (place block_size names p)
unfolding place
IsPlaced-place block_size seen [] p small h i =
    subst (λ t. IsPlaced block_size t p) (sym (append-nil seen)) i
IsPlaced-place block_size seen (name ∷ names) p small (h, hs) i =
    subst (λ t. IsPlaced block_size t (place block_size names (place_one block_size name p)))
      (append_assoc seen (name ∷ []) names)
      (IsPlaced-place block_size (seen ++ name ∷ []) names (place_one block_size name p) small hs
        (IsPlaced-place_one block_size seen name p small h i))

sum-map-length : (cs : List (List Bytes)) → sum (map length cs) ≡ length (concat cs)
sum-map-length [] = refl
sum-map-length (c ∷ cs) = omega (arith, length-append c (concat cs), sum-map-length cs)

-- The last block's bytes, behind full blocks.
abbrev pub total : ℕ → List (List Bytes) → ℕ
total block_size [] = 0
total block_size (c ∷ []) = used c
total block_size (c ∷ d ∷ cs) = block_size + total block_size (d ∷ cs)

-- What is known of the chunks in the end.
pub record IsCut (block_size : ℕ) (names : List Bytes) (counts : List ℕ) (size : ℕ) : Type 0 where
  pub chunks : List (List Bytes)
  pub names_eq : concat chunks ≡ names
  pub counts_eq : map length chunks ≡ counts
  pub full : All (IsChunk block_size) chunks
  pub size_eq : size ≡ total block_size chunks

total-snoc :
    (block_size : ℕ) (cs : List (List Bytes)) (c : List Bytes)
    → total block_size (cs ++ c ∷ []) ≡ block_size * length cs + used c
total-snoc block_size [] c = omega arith
total-snoc block_size (d ∷ []) c = grind arith
total-snoc block_size (d ∷ e ∷ cs) c = grind (arith, total-snoc block_size (e ∷ cs) c)

length-map : (cs : List (List Bytes)) → length (map length cs) ≡ length cs
length-map [] = refl
length-map (c ∷ cs) = ap suc (length-map cs)

all_children :
    (names : List Bytes) (counts : List ℕ) (size block_size : ℕ)
    → IsCut block_size names counts size
    → (length names == sum counts) ≡ true
all_children names counts size block_size i =
    (==_iff (length names) (sum counts)).1
      (sym (ap length i.names_eq) ∙ sym (sum-map-length i.chunks) ∙ ap sum i.counts_eq)

IsCut-close :
    (block_size : ℕ) (names : List Bytes) (p : Placed)
    → 0 < length names
    → IsPlaced block_size names p
    → let closed = close_block block_size p in IsCut block_size names closed.0 closed.1
unfolding close_block
IsCut-close block_size names p some_name i =
    let pos : 0 < length i.current = i.first some_name in
    let ne : (p.count == 0) ≡ false = ground (arith, i.count_eq) in
    rw ne (record {
      chunks = i.chunks ++ i.current ∷ [];
      names_eq = concat-snoc i.chunks i.current ∙ i.seen_eq;
      counts_eq =
          map-snoc i.chunks i.current
          ∙ ap (λ t. t ++ length i.current ∷ []) i.blocks_eq
          ∙ ap (λ n. p.blocks ++ n ∷ []) i.count_eq;
      full =
          All-append (IsChunk block_size) i.chunks (i.current ∷ []) i.full
            (record { some_entry = pos; fits = omega (arith, i.len_eq, i.fits) }, tt);
      size_eq = sym (
          total-snoc block_size i.chunks i.current
          ∙ rw (i.len_eq, sym (length-map i.chunks), i.blocks_eq) refl);
    })

-- The children's names, one at least, are put into the blocks of the directory in order: each block
-- gets one entry at least, the entries of a block fit it, the number of blocks is returned, the size
-- is that of full blocks and the last block's entries, and there is no panic. That is so for blocks of
-- at most 2^16 bytes, each of which has room for any one entry, on a directory that has no blocks yet,
-- if the first block's number fits a u32; a number that does not fit is an error.
pub prepare_dirent_data-IsCut :
    (children : List Bytes) (block_size start_block : ℕ) (dir : Dir)
    → block_size ≤ 2 ^ 16
    → 0 < length children
    → All (λ n. dirent_size + length n ≤ block_size) children
    → dir.n_dirents_per_block ≡ []
    → ((start_block < 2 ^ 32)
        → (counts : List ℕ) × (size : ℕ) × (prepare_dirent_data children block_size start_block dir
            ≡ ok (
              length counts,
              record { start_block = start_block; n_dirents_per_block = counts; total_size = size },
            ))
          × IsCut block_size children counts size)
      × ((2 ^ 32 ≤ start_block)
          → prepare_dirent_data children block_size start_block dir ≡ err block_no_too_big)
unfolding prepare_dirent_data
prepare_dirent_data-IsCut children block_size start_block dir small some_name h e =
    let p : Placed = place block_size children (record { blocks = []; len = 0; count = 0 }) in
    let cut = IsCut-close block_size children p some_name (
      IsPlaced-place block_size [] children (record { blocks = []; len = 0; count = 0 }) small h
        (record {
          chunks = [];
          current = [];
          seen_eq = refl;
          blocks_eq = refl;
          full = tt;
          len_eq = refl;
          count_eq = refl;
          first = λ k. k;
          fits = omega arith;
        })) in
    let closed = close_block block_size p in
    (
      λ k. (
        closed.0,
        closed.1,
        rw
            (
              e,
              lt→ltb start_block (2 ^ 32) k,
              all_children children closed.0 closed.1 block_size cut,
            )
            refl,
        cut,
      ),
      λ k. let f : ltb start_block (2 ^ 32) ≡ false = ground arith in rw f refl,
    )
