-- ===== src/Peerofs/Writer/Entries/Reading.antt =====
-- The reader's steps over a block of entries as it was written.
use program_explorer.Prelude.{
  ℕ, ◌+◌, ◌*◌, ◌^◌, ◌<◌, ◌≤◌, ◌≡◌, refl, sym, ap, ◌∙◌, arith, List, [], ◌∷◌, ◌++◌, length,
  length-append, append_assoc, All,
}
use program_explorer.Prelude.Bytes.{Bytes}
use program_explorer.Prelude.Result.{ok}
use program_explorer.Peerofs.Disk.{
  DirentFileType, file_type_number, file_type_from, get_from, get_range, div_mod_u16,
}
use program_explorer.Peerofs.Disk.Entries
use program_explorer.Peerofs.Disk.Entries.{
  DirentItem, DirentsIterator, dirent_bytes, dirent_size, get, next, next_impl, next_at, next_item,
  name_of, name_before, name_last, name_end, leave_block, min, until_zero, reset_count,
  count_unless_empty, count_entries, refill, dirent_from_prefix,
}
use program_explorer.Peerofs.Disk.Entries.RoundTrip.{
  get_from-append, get_range-append, dirent_from_prefix-append, IsDirent, file_type_number-lt,
}
use program_explorer.Peerofs.Writer.Entries.Written.{headers, names, block_bytes, length-headers}

-- A number and a name that can be written: a name has no zero byte.
pub record IsItem (e : DirentItem) : Type 0 where
  pub disk_id_lt : e.disk_id < 2 ^ 64
  pub no_zero : All (λ b. 0 < b) e.name

-- The entry of an item, with its name at the offset.
abbrev pub header : ℕ → DirentItem → program_explorer.Peerofs.Disk.Entries.Dirent
header offset e = record {
  disk_id = e.disk_id;
  name_offset = offset;
  file_type = file_type_number e.file_type;
}

pub IsDirent-header :
    (offset : ℕ) (e : DirentItem) → IsItem e → offset < 2 ^ 16 → IsDirent (header offset e)
IsDirent-header offset e i h = record {
  disk_id_lt = i.disk_id_lt;
  name_offset_lt = h;
  file_type_lt = file_type_number-lt e.file_type;
}

headers-append :
    (offset : ℕ) (a b : List DirentItem)
    → headers offset (a ++ b) ≡ headers offset a ++ headers (offset + length (names a)) b
headers-append offset [] b = ap (λ n. headers n b) (omega arith)
headers-append offset (e ∷ a) b =
    let n : offset + length e.name + length (names a) ≡ offset + length (names (e ∷ a)) =
      omega (arith, length-append e.name (names a)) in
    rw
      (
        headers-append (offset + length e.name) a b,
        n,
        append_assoc (dirent_bytes (header offset e)) (headers (offset + length e.name) a)
            (headers (offset + length (names (e ∷ a))) b),
      )
      refl

pub names-append : (a b : List DirentItem) → names (a ++ b) ≡ names a ++ names b
names-append [] b = refl
names-append (e ∷ a) b =
    ap (λ t. e.name ++ t) (names-append a b) ∙ sym (append_assoc e.name (names a) (names b))

-- The entry behind the entries of `a`.
get-header :
    (it : DirentsIterator) (offset : ℕ) (a : List DirentItem) (e : DirentItem) (b : List DirentItem)
    (rest : Bytes)
    → it.bytes ≡ headers offset (a ++ e ∷ b) ++ rest
    → IsItem e
    → offset + length (names a) < 2 ^ 16
    → get it (length a) ≡ ok (header (offset + length (names a)) e)
unfolding get
get-header it offset a e b rest h i k =
    let at : ℕ = offset + length (names a) in
    let bs : Bytes = headers (at + length e.name) b in
    let eq : it.bytes ≡ headers offset a ++ (dirent_bytes (header at e) ++ (bs ++ rest)) =
      h
      ∙ ap (λ t. t ++ rest) (headers-append offset a (e ∷ b))
      ∙ append_assoc (headers offset a) (dirent_bytes (header at e) ++ bs) rest
      ∙ ap (λ t. headers offset a ++ t) (append_assoc (dirent_bytes (header at e)) bs rest) in
    rw
      (
        eq,
        get_from-append (length a * dirent_size) (headers offset a)
            (dirent_bytes (header at e) ++ (bs ++ rest)) (sym (length-headers offset a)),
        dirent_from_prefix-append (header at e) (bs ++ rest) (IsDirent-header at e i k),
      )
      refl

-- Its name in the block.
pub get_range-name :
    (a : List DirentItem) (e : DirentItem) (b : List DirentItem) (rest : Bytes)
    → let es = a ++ e ∷ b in
      let at = length es * dirent_size + length (names a) in
      get_range (block_bytes es ++ rest) at (at + length e.name) ≡ ok e.name
get_range-name a e b rest =
    let es : List DirentItem = a ++ e ∷ b in
    let hs : Bytes = headers (length es * dirent_size) es in
    let l = length-append hs (names a) in
    let k = length-headers (length es * dirent_size) es in
    let eq : block_bytes es ++ rest ≡ (hs ++ names a) ++ (e.name ++ (names b ++ rest)) =
      ap (λ t. (hs ++ t) ++ rest) (names-append a (e ∷ b))
      ∙ ap (λ t. t ++ rest) (sym (append_assoc hs (names a) (e.name ++ names b)))
      ∙ append_assoc (hs ++ names a) (e.name ++ names b) rest
      ∙ ap (λ t. (hs ++ names a) ++ t) (append_assoc e.name (names b) rest) in
    rw eq (
      get_range-append (length es * dirent_size + length (names a))
        (length es * dirent_size + length (names a) + length e.name) (hs ++ names a) e.name
        (names b ++ rest) (omega (arith, l, k)) (omega (arith, l, k)))

pub name_end-ordered : (s t : ℕ) → s ≤ t → t < 2 ^ 64 → name_end s t ≡ t
unfolding name_end
name_end-ordered s t h k = omega arith

-- The lengths of a block and its parts, with the item `e` in the middle.
pub length-block_bytes :
    (es : List DirentItem) → length (block_bytes es) ≡ length es * dirent_size + length (names es)
length-block_bytes es = omega (
  arith,
  length-append (headers (length es * dirent_size) es) (names es),
  length-headers (length es * dirent_size) es,
)

pub length-names :
    (a : List DirentItem) (e : DirentItem) (b : List DirentItem)
    → length (names (a ++ e ∷ b)) ≡ length (names a) + length e.name + length (names b)
length-names a e b = omega (
  arith,
  ap length (names-append a (e ∷ b)),
  length-append (names a) (e.name ++ names b),
  length-append e.name (names b),
)

-- Where the name of the entry behind those of `a` starts.
abbrev pub name_at : List DirentItem → DirentItem → List DirentItem → ℕ
name_at a e b = length (a ++ e ∷ b) * dirent_size + length (names a)

pub name_at-lt :
    (a : List DirentItem) (e : DirentItem) (b : List DirentItem)
    → length (block_bytes (a ++ e ∷ b)) ≤ 2 ^ 12
    → name_at a e b + length e.name ≤ 2 ^ 12
name_at-lt a e b h = omega (arith, h, length-block_bytes (a ++ e ∷ b), length-names a e b)

pub get-current :
    (it : DirentsIterator) (a : List DirentItem) (e : DirentItem) (b : List DirentItem)
    (rest : Bytes)
    → it.bytes ≡ block_bytes (a ++ e ∷ b) ++ rest
    → length (block_bytes (a ++ e ∷ b)) ≤ 2 ^ 12
    → IsItem e
    → get it (length a) ≡ ok (header (name_at a e b) e)
get-current it a e b rest h small i =
    get-header it (length (a ++ e ∷ b) * dirent_size) a e b (names (a ++ e ∷ b) ++ rest)
      (h
        ∙ append_assoc (headers (length (a ++ e ∷ b) * dirent_size) (a ++ e ∷ b))
            (names (a ++ e ∷ b)) rest)
      i (omega (arith, name_at-lt a e b small))

pub get-following :
    (it : DirentsIterator) (a : List DirentItem) (e f : DirentItem) (b : List DirentItem)
    (rest : Bytes)
    → it.bytes ≡ block_bytes (a ++ e ∷ f ∷ b) ++ rest
    → length (block_bytes (a ++ e ∷ f ∷ b)) ≤ 2 ^ 12
    → IsItem f
    → get it (length a + 1) ≡ ok (header (name_at a e (f ∷ b) + length e.name) f)
get-following it a e f b rest h small i =
    let es : List DirentItem = a ++ e ∷ f ∷ b in
    let a' : List DirentItem = a ++ e ∷ [] in
    let eq : a' ++ f ∷ b ≡ es = append_assoc a (e ∷ []) (f ∷ b) in
    let n : length a' ≡ length a + 1 = omega (arith, length-append a (e ∷ [])) in
    let m : name_at a' f b ≡ name_at a e (f ∷ b) + length e.name =
      omega (arith, ap length eq, length-names a e []) in
    rw (sym n, sym m)
      (get-current it a' f b rest (h ∙ ap (λ t. block_bytes t ++ rest) (sym eq))
        (omega (arith, small, ap (λ t. length (block_bytes t)) eq)) i)
