-- ===== src/Peerofs/Writer/Entries/Written.antt =====
-- What a block of entries holds once it is written.
use program_explorer.Prelude.{
  ℕ, ◌+◌, ◌*◌, ◌^◌, ◌<◌, ◌≤◌, ◌≡◌, refl, arith, true, Option, some, List, [], ◌∷◌, ◌++◌, length,
  ltb, length-append, append-nil, append_assoc, lt→ltb, map, All,
}
use program_explorer.Prelude.Bytes.{Bytes}
use program_explorer.Prelude.Result.{ok}
use program_explorer.Peerofs.Blocks.{block_size, default_block_size_bits, zero_fill}
use program_explorer.Peerofs.Disk.{DirentFileType, file_type_number}
use program_explorer.Peerofs.Disk.Structs.{zeros}
use program_explorer.Peerofs.Disk.Entries
use program_explorer.Peerofs.Disk.Entries.{DirentItem, dirent_bytes, dirent_size}
use program_explorer.Peerofs.Disk.Entries.RoundTrip.{length-dirent_bytes}
use program_explorer.Peerofs.Writer.{Dirent, file_type}
use program_explorer.Peerofs.Writer.Entries.{
  Writer, child_id, write_entry, write_entries, write_block, write_blocks,
}

-- A writer that keeps what it is given.
abbrev pub appending : Writer Bytes
appending = record { write_all = λ w b. some (w ++ b); seek = λ w n. some w }

abbrev pub headers : ℕ → List DirentItem → Bytes
headers offset [] = []
headers offset (e ∷ es) =
    dirent_bytes (record {
      disk_id = e.disk_id;
      name_offset = offset;
      file_type = file_type_number e.file_type;
    })
    ++ headers (offset + length e.name) es

abbrev pub names : List DirentItem → Bytes
names [] = []
names (e ∷ es) = e.name ++ names es

abbrev pub block_bytes : List DirentItem → Bytes
block_bytes es = headers (length es * dirent_size) es ++ names es

-- The items are the children, by their names, kinds and inode numbers.
abbrev pub Shows : List ℕ → Option ℕ → List (Bytes × Dirent) → List DirentItem → Type 0
Shows parents own [] [] = Unit
Shows parents own [] (e ∷ es) = ⊥
Shows parents own (c ∷ cs) [] = ⊥
Shows parents own (c ∷ cs) (e ∷ es) =
    (child_id parents own c.1 ≡ some e.disk_id)
    × (file_type c.1 ≡ e.file_type)
    × (c.0 ≡ e.name)
    × Shows parents own cs es

pub length-headers :
    (offset : ℕ) (es : List DirentItem) → length (headers offset es) ≡ length es * dirent_size
length-headers offset [] = refl
length-headers offset (e ∷ es) =
    let d : program_explorer.Peerofs.Disk.Entries.Dirent = record {
      disk_id = e.disk_id;
      name_offset = offset;
      file_type = file_type_number e.file_type;
    } in
    omega (
      arith,
      length-append (dirent_bytes d) (headers (offset + length e.name) es),
      length-dirent_bytes d,
      length-headers (offset + length e.name) es,
    )

-- With the zeros behind it.
abbrev pub padded : List DirentItem → Bytes
padded es =
    block_bytes es
    ++ zeros (zero_fill (length (block_bytes es)) (block_size default_block_size_bits))

abbrev pub all_padded : List (List DirentItem) → Bytes
all_padded [] = []
all_padded (es ∷ ess) = padded es ++ all_padded ess

abbrev pub concat {ℓ} : {A : Type ℓ} → List (List A) → List A
concat [] = []
concat (c ∷ cs) = c ++ concat cs

abbrev pub ShowsAll :
    List ℕ → Option ℕ → List (List (Bytes × Dirent)) → List (List DirentItem) → Type 0
ShowsAll parents own [] [] = Unit
ShowsAll parents own [] (es ∷ ess) = ⊥
ShowsAll parents own (cs ∷ css) [] = ⊥
ShowsAll parents own (cs ∷ css) (es ∷ ess) = Shows parents own cs es × ShowsAll parents own css ess

module _ (parents : List ℕ) (own : Option ℕ) where
  write_entries-headers :
      (cs : List (Bytes × Dirent)) (es : List DirentItem) (w : Bytes) (offset : ℕ) (buf : Bytes)
      (rest : List (Bytes × Dirent))
      → Shows parents own cs es
      → offset + length (names es) < 2 ^ 16
      → write_entries appending parents own (length es) w offset buf (cs ++ rest)
        ≡ ok (w ++ headers offset es, buf ++ names es, rest)
  unfolding write_entries write_entry
  write_entries-headers [] [] w offset buf rest s h = rw (append-nil w, append-nil buf) refl
  write_entries-headers [] (e ∷ es) w offset buf rest s h = absurd s
  write_entries-headers (c ∷ cs) [] w offset buf rest s h = absurd s
  write_entries-headers ((name, d) ∷ cs) (e ∷ es) w offset buf rest (a, b, n, s) h =
      let l = length-append e.name (names es) in
      let first : ltb offset (2 ^ 16) ≡ true = lt→ltb offset (2 ^ 16) (omega (arith, h, l)) in
      let head : program_explorer.Peerofs.Disk.Entries.Dirent = record {
        disk_id = e.disk_id;
        name_offset = offset;
        file_type = file_type_number e.file_type;
      } in
      let more =
        write_entries-headers cs es (w ++ dirent_bytes head) (offset + length e.name)
          (buf ++ e.name) rest s (omega (arith, h, l)) in
      rw (a, first, b, n, more)
        (rw
          (
            append_assoc w (dirent_bytes head) (headers (offset + length e.name) es),
            append_assoc buf e.name (names es),
          )
          refl)

  -- The bytes of one block.
  write_block-block_bytes :
      (cs : List (Bytes × Dirent)) (es : List DirentItem) (w : Bytes) (rest : List (Bytes × Dirent))
      → Shows parents own cs es
      → length (block_bytes es) ≤ 2 ^ 12
      → write_block appending parents own (length es) w (cs ++ rest) ≡ ok (w ++ padded es, rest)
  unfolding write_block
  write_block-block_bytes cs es w rest s h =
      let l = length-append (headers (length es * dirent_size) es) (names es) in
      let k = length-headers (length es * dirent_size) es in
      let zs = zeros (zero_fill (length (block_bytes es)) (block_size default_block_size_bits)) in
      let len : length es * dirent_size + length (names es) ≡ length (block_bytes es) =
        omega (arith, l, k) in
      rw
        (
          write_entries-headers cs es w (length es * dirent_size) [] rest s
              (omega (arith, h, l, k)),
          len,
        )
        (rw
          (
            append_assoc w (headers (length es * dirent_size) es) (names es),
            append_assoc w (block_bytes es) zs,
          )
          refl)

  -- All blocks, for children that are divided among them.
  pub write_blocks-padded :
      (css : List (List (Bytes × Dirent))) (ess : List (List DirentItem)) (w : Bytes)
      → ShowsAll parents own css ess
      → All (λ es. length (block_bytes es) ≤ 2 ^ 12) ess
      → write_blocks appending parents own (map length ess) w (concat css)
        ≡ ok (w ++ all_padded ess, [])
  unfolding write_blocks
  write_blocks-padded [] [] w s h = rw (append-nil w) refl
  write_blocks-padded [] (es ∷ ess) w s h = absurd s
  write_blocks-padded (cs ∷ css) [] w s h = absurd s
  write_blocks-padded (cs ∷ css) (es ∷ ess) w (s, ss) (h, hs) =
      rw
        (
          write_block-block_bytes cs es w (concat css) s h,
          write_blocks-padded css ess (w ++ padded es) ss hs,
          append_assoc w (padded es) (all_padded ess),
        )
        refl
