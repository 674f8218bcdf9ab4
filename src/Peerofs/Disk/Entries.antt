-- ===== src/Peerofs/Disk/Entries.antt =====
-- The entries of a directory in disk.rs: `Dirent`, and `DirentsIterator` with the loops over it. The
-- state stands in front of every result, since a call that fails has changed it as well. Differences
-- and sums of a usize wrap around.
pub mod Progress
pub mod Ends
pub mod RoundTrip
use program_explorer.Prelude.{
  ℕ, zero, suc, ◌+◌, ◌-◌, ◌*◌, ◌/◌, ◌%◌, ◌^◌, Bool, true, false, Option, none, some, List, [], ◌∷◌,
  ◌++◌, length, take, drop, ◌==◌, ltb, if◌then◌else◌,
}
use program_explorer.Prelude.Bytes.{Bytes, to_le_bytes, bytes_eq}
use program_explorer.Prelude.Result.{Result, ok, err, ◌>>=◌, ◌>>◌, ensure}
use program_explorer.Peerofs.Disk.{
  Error, dirent_bad_size, DirentFileType, file_type_from, get_from, get_range, ref_from_prefix,
  field, div_mod_u16,
}

abbrev pub dirent_size : ℕ
dirent_size = 12

pub record Dirent : Type 0 where
  pub disk_id : ℕ
  pub name_offset : ℕ
  pub file_type : ℕ

unfoldable pub dirent_bytes : Dirent → Bytes
dirent_bytes d =
    to_le_bytes 8 d.disk_id
    ++ to_le_bytes 2 d.name_offset
    ++ to_le_bytes 1 d.file_type
    ++ to_le_bytes 1 0

unfoldable pub read_dirent : Bytes → Dirent
read_dirent b = record {
  disk_id = field 0 8 b;
  name_offset = field 8 2 b;
  file_type = field 10 1 b;
}

pub record DirentItem : Type 0 where
  pub disk_id : ℕ
  pub file_type : DirentFileType
  pub name : Bytes

pub record DirentsIterator : Type 0 where
  pub bytes : Bytes
  pub remaining : Option Bytes
  pub i : ℕ
  pub count : ℕ
  pub block_size : ℕ

-- `Dirent::try_ref_from_prefix`
unfoldable pub dirent_from_prefix : Bytes → Result Error Dirent
dirent_from_prefix bytes = ref_from_prefix dirent_size bytes >>= λ r. ok (read_dirent r.0)

unfoldable pub get : DirentsIterator → ℕ → Result Error Dirent
get it i = get_from it.bytes (i * dirent_size) >>= dirent_from_prefix

-- `reset_count` where bytes are left: the first entry's name starts behind the entries.
unfoldable pub count_entries :
    DirentsIterator → Result Error Dirent → DirentsIterator × Result Error (Unit {0})
count_entries it (err e) = (it, err e)
count_entries it (ok dirent) =
    let r = div_mod_u16 dirent.name_offset dirent_size in
    if r.1 == 0 then (record it { i = 0; count = r.0 }, ok tt) else (it, err dirent_bad_size)

unfoldable pub count_unless_empty : DirentsIterator → DirentsIterator × Result Error (Unit {0})
count_unless_empty it =
    if length it.bytes == 0
    then (record it { i = 0; count = 0 }, ok tt)
    else count_entries it (dirent_from_prefix it.bytes)

-- The bytes that come next, if those in front are used up.
unfoldable pub refill : DirentsIterator → Option Bytes → DirentsIterator
refill it none = it
refill it (some next) = record it { bytes = next; remaining = none }

unfoldable pub reset_count : DirentsIterator → DirentsIterator × Result Error (Unit {0})
reset_count it =
    if length it.bytes == 0
    then count_unless_empty (refill it it.remaining)
    else count_unless_empty it

unfoldable pub new_iterator : Bytes × Bytes → ℕ → Result Error DirentsIterator
new_iterator bytes block_size =
    let r = reset_count (record {
      bytes = bytes.0;
      remaining = some bytes.1;
      i = 0;
      count = 0;
      block_size = block_size;
    }) in
    r.1 >>= λ _. ok r.0

-- Up to the first zero byte, if there is one.
unfoldable pub until_zero : Bytes → Bytes
until_zero [] = []
until_zero (x ∷ xs) = if x == 0 then [] else x ∷ until_zero xs

-- `name_offset..name_offset + (next_offset - name_offset)`
unfoldable pub name_end : ℕ → ℕ → ℕ
name_end name_offset next_offset =
    (name_offset + (next_offset + 2 ^ 64 - name_offset) % 2 ^ 64) % 2 ^ 64

-- An entry that another one follows in the block: the index goes on before the name is read.
unfoldable pub name_before :
    DirentsIterator → Dirent → Result Error Dirent → DirentsIterator × Result Error Bytes
name_before it dirent (err e) = (it, err e)
name_before it dirent (ok next_dirent) = (
  record it { i = it.i + 1 },
  get_range it.bytes dirent.name_offset (name_end dirent.name_offset next_dirent.name_offset),
)

-- The last entry of a block: its bytes are dropped, and what follows is counted.
unfoldable pub leave_block :
    DirentsIterator → ℕ → Result Error Bytes → DirentsIterator × Result Error Bytes
leave_block it block_end (err e) = (it, err e)
leave_block it block_end (ok slice) =
    let r = reset_count (record it { bytes = drop block_end it.bytes }) in
    (r.0, r.1 >>= λ _. ok (until_zero slice))

abbrev pub min : ℕ → ℕ → ℕ
min a b = if ltb b a then b else a

unfoldable pub name_last : DirentsIterator → Dirent → DirentsIterator × Result Error Bytes
name_last it dirent =
    let block_end : ℕ = min (length it.bytes) it.block_size in
    leave_block it block_end (get_range it.bytes dirent.name_offset block_end)

unfoldable pub name_of : DirentsIterator → Dirent → Bool → DirentsIterator × Result Error Bytes
name_of it dirent true = name_before it dirent (get it (it.i + 1))
name_of it dirent false = name_last it dirent

-- The entry with its kind, and then its name.
unfoldable pub next_item :
    DirentsIterator
    → Dirent
    → Result Error DirentFileType
    → DirentsIterator × Result Error DirentItem
next_item it dirent (err e) = (it, err e)
next_item it dirent (ok file_type) =
    let r = name_of it dirent (ltb (it.i + 1) it.count) in
    (
      r.0,
      r.1 >>= λ name. ok (record { disk_id = dirent.disk_id; file_type = file_type; name = name }),
    )

unfoldable pub next_at :
    DirentsIterator → Result Error Dirent → DirentsIterator × Result Error DirentItem
next_at it (err e) = (it, err e)
next_at it (ok dirent) = next_item it dirent (file_type_from dirent.file_type)

unfoldable pub next_impl : DirentsIterator → DirentsIterator × Result Error DirentItem
next_impl it = next_at it (get it it.i)

-- `Iterator::next`
unfoldable pub next : DirentsIterator → Option (DirentsIterator × Result Error DirentItem)
next it = if ltb it.i it.count then some (next_impl it) else none

-- `for item in dirents.iter()? { let item = item?; .. }`, with the items that the loop sees: none where
-- the fuel does not suffice.
unfoldable pub prepend_item :
    DirentItem → Option (Result Error (List DirentItem)) → Option (Result Error (List DirentItem))
prepend_item item none = none
prepend_item item (some (err e)) = some (err e)
prepend_item item (some (ok xs)) = some (ok (item ∷ xs))

unfoldable pub items_with :
    (DirentsIterator → Option (Result Error (List DirentItem)))
    → Option (DirentsIterator × Result Error DirentItem)
    → Option (Result Error (List DirentItem))
items_with rest none = some (ok [])
items_with rest (some (it, err e)) = some (err e)
items_with rest (some (it, ok item)) = prepend_item item (rest it)

unfoldable pub items : ℕ → DirentsIterator → Option (Result Error (List DirentItem))
items zero it = none
items (suc n) it = items_with (items n) (next it)

-- The loop of `lookup` over a directory: the first entry of the name.
unfoldable pub found_or :
    DirentItem
    → Option (Result Error (Option DirentItem))
    → Bool
    → Option (Result Error (Option DirentItem))
found_or item rest true = some (ok (some item))
found_or item rest false = rest

unfoldable pub find_with :
    Bytes
    → (DirentsIterator → Option (Result Error (Option DirentItem)))
    → Option (DirentsIterator × Result Error DirentItem)
    → Option (Result Error (Option DirentItem))
find_with name rest none = some (ok none)
find_with name rest (some (it, err e)) = some (err e)
find_with name rest (some (it, ok item)) = found_or item (rest it) (bytes_eq item.name name)

unfoldable pub find_item : ℕ → Bytes → DirentsIterator → Option (Result Error (Option DirentItem))
find_item zero name it = none
find_item (suc n) name it = find_with name (find_item n name) (next it)

-- The fuel for the bytes of a directory.
abbrev pub loop_fuel : Bytes × Bytes → ℕ
loop_fuel bytes = let n : ℕ = length bytes.0 + length bytes.1 in n * n + n + 1
