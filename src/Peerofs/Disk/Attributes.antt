-- ===== src/Peerofs/Disk/Attributes.antt =====
-- The extended attributes in disk.rs: `XattrPrefix`, `XattrsIterator`, and the sizes that an inode keeps
-- of them.
use program_explorer.Prelude.{
  ℕ, zero, suc, ◌+◌, ◌-◌, ◌*◌, ◌/◌, ◌%◌, Bool, true, false, not, Option, none, some, List, [], ◌∷◌,
  ◌++◌, ◌&&◌, length, take, drop, ◌==◌, ltb, if◌then◌else◌,
}
use program_explorer.Prelude.Bytes.{Bytes, to_le_bytes, from_le_bytes, codes}
use program_explorer.Prelude.Result.{Result, ok, err, ◌>>=◌, ensure}
use program_explorer.Peerofs.Disk.{
  Error, oob, invalid_xattr_prefix, builtin_prefix_too_big, xattr_prefix_table_not_handled,
  get_from, get_range, ref_from_prefix, field, round_up_to,
}

abbrev pub xattr_header_size : ℕ
xattr_header_size = 12

abbrev pub xattr_entry_size : ℕ
xattr_entry_size = 4

pub record XattrHeader : Type 0 where
  pub name_filter : ℕ
  pub shared_count : ℕ

unfoldable pub read_xattr_header : Bytes → XattrHeader
read_xattr_header b = record { name_filter = field 0 4 b; shared_count = field 4 1 b }

pub record XattrEntry : Type 0 where
  pub name_len : ℕ
  pub name_index : ℕ
  pub value_size : ℕ

unfoldable pub xattr_entry_bytes : XattrEntry → Bytes
xattr_entry_bytes e =
    to_le_bytes 1 e.name_len ++ to_le_bytes 1 e.name_index ++ to_le_bytes 2 e.value_size

unfoldable pub read_xattr_entry : Bytes → XattrEntry
read_xattr_entry b = record {
  name_len = field 0 1 b;
  name_index = field 1 1 b;
  value_size = field 2 2 b;
}

-- `builtin` with an index that is not zero, `table` with the lower seven bits.
pub data XattrPrefix : Type 0 where
  builtin : ℕ → XattrPrefix
  table : ℕ → XattrPrefix

-- `XattrBuiltinPrefix::MAX`
abbrev pub xattr_builtin_max : ℕ
xattr_builtin_max = 7

abbrev pub xattr_builtin_prefix_table : List Bytes
xattr_builtin_prefix_table =
    codes "user."
    ∷ codes "system.posix_acl_access"
    ∷ codes "system.posix_acl_default"
    ∷ codes "trusted"
    ∷ []
    ∷ codes "security."
    ∷ []

-- `x & 0x80 != 0` for a byte is that it is not below 128.
unfoldable pub prefix_from : ℕ → Result Error (Option XattrPrefix)
prefix_from x =
    if x == 0
    then ok none
    else if not (ltb x 128)
    then ok (some (table (x % 128)))
    else if ltb x xattr_builtin_max
    then ok (some (builtin x))
    else err invalid_xattr_prefix

pub record XattrItem : Type 0 where
  pub prefix : Option XattrPrefix
  pub name : Bytes
  pub value : Bytes

pub record XattrsIterator : Type 0 where
  pub bytes : Bytes
  pub shared : Bytes
  pub shared_remaining : ℕ

-- `split_at_checked(n).ok_or(Error::Oob)?`
unfoldable pub split_at : Bytes → ℕ → Result Error (Bytes × Bytes)
split_at bytes n = ensure (not (ltb (length bytes) n)) oob >>= λ _. ok (take n bytes, drop n bytes)

-- An attribute that is shared: a number of four bytes leads to it.
unfoldable pub shared_item : Bytes → ℕ → Result Error XattrItem
shared_item shared index = do
  sdata ← get_from shared (index * 4)
  entry ← ref_from_prefix xattr_entry_size sdata
  name ← split_at entry.1 (read_xattr_entry entry.0).name_len
  value ← split_at name.1 (read_xattr_entry entry.0).value_size
  prefix ← prefix_from (read_xattr_entry entry.0).name_index
  ok (record { prefix = prefix; name = name.0; value = value.0 })

unfoldable pub next_shared_from :
    XattrsIterator → Result Error (Bytes × Bytes) → XattrsIterator × Result Error XattrItem
next_shared_from it (err e) = (it, err e)
next_shared_from it (ok r) = (record it { bytes = r.1 }, shared_item it.shared (from_le_bytes r.0))

unfoldable pub next_shared : XattrsIterator → XattrsIterator × Result Error XattrItem
next_shared it =
    next_shared_from (record it { shared_remaining = it.shared_remaining - 1 })
      (ref_from_prefix 4 it.bytes)

-- The bytes behind an attribute; fewer than an entry's are dropped.
unfoldable pub or_nothing : Bytes → Bytes
or_nothing bytes = if ltb (length bytes) xattr_entry_size then [] else bytes

pub record Unshared : Type 0 where
  pub name_index : ℕ
  pub name : Bytes
  pub value : Bytes
  pub rest : Bytes

unfoldable pub read_unshared : Bytes → Result Error Unshared
read_unshared bytes = do
  entry ← ref_from_prefix xattr_entry_size bytes
  let e = read_xattr_entry entry.0
  name ← get_range entry.1 0 e.name_len
  value ← get_range entry.1 e.name_len (e.name_len + e.value_size)
  rest ← get_from entry.1 (round_up_to xattr_entry_size (e.name_len + e.value_size))
  ok (record { name_index = e.name_index; name = name; value = value; rest = or_nothing rest })

-- The iterator goes on before the prefix is looked at.
unfoldable pub next_unshared_from :
    XattrsIterator → Result Error Unshared → XattrsIterator × Result Error XattrItem
next_unshared_from it (err e) = (it, err e)
next_unshared_from it (ok u) = (
  record it { bytes = u.rest },
  prefix_from u.name_index >>= λ prefix.
      ok (record { prefix = prefix; name = u.name; value = u.value }),
)

unfoldable pub next_unshared : XattrsIterator → XattrsIterator × Result Error XattrItem
next_unshared it = next_unshared_from it (read_unshared it.bytes)

-- `Iterator::next`
unfoldable pub next : XattrsIterator → Option (XattrsIterator × Result Error XattrItem)
next it =
    if ltb 0 it.shared_remaining
    then some (next_shared it)
    else if not (length it.bytes == 0)
    then some (next_unshared it)
    else none

-- `get_xattr_prefix`
abbrev pub get_prefix : List Bytes → ℕ → Result Error Bytes
get_prefix [] i = err builtin_prefix_too_big
get_prefix (p ∷ ps) zero = ok p
get_prefix (p ∷ ps) (suc i) = get_prefix ps i

unfoldable pub get_xattr_prefix : Option XattrPrefix → Result Error Bytes
get_xattr_prefix none = ok []
get_xattr_prefix (some (builtin i)) = get_prefix xattr_builtin_prefix_table (i - 1)
get_xattr_prefix (some (table i)) = err xattr_prefix_table_not_handled

pub record XattrCountAndPadding : Type 0 where
  pub xattr_count : ℕ
  pub padding : ℕ

abbrev pub entries_len : List XattrEntry → ℕ
entries_len [] = 0
entries_len (e ∷ es) = e.name_len + e.value_size + xattr_entry_size + entries_len es

unfoldable pub xattr_count : List XattrEntry → XattrCountAndPadding
xattr_count es =
    let len : ℕ = entries_len es in
    let padded : ℕ = round_up_to xattr_entry_size len in
    if len == 0
    then record { xattr_count = 0; padding = 0 }
    else record { xattr_count = padded / 4 + 1; padding = padded - len }

unfoldable pub xattr_count_to_len : ℕ → ℕ
xattr_count_to_len count =
    if count == 0 then 0 else xattr_header_size + (count - 1) * xattr_entry_size

abbrev pub starts_with : Bytes → Bytes → Bool
starts_with key [] = true
starts_with [] (p ∷ ps) = false
starts_with (k ∷ ks) (p ∷ ps) = (k == p) && starts_with ks ps

-- The first prefix of the table that the key has, by its place from 1, and its length.
unfoldable pub find_prefix : ℕ → Bytes → List Bytes → Option (ℕ × ℕ)
find_prefix i key [] = none
find_prefix i key (p ∷ ps) =
    if starts_with key p then some (i, length p) else find_prefix (i + 1) key ps

unfoldable pub xattr_builtin_prefix : Bytes → Option (ℕ × ℕ)
xattr_builtin_prefix key = find_prefix 1 key xattr_builtin_prefix_table

-- `for item in xattrs.iter() { let item = item?; .. }`, with the items that the loop sees.
unfoldable pub prepend_item :
    XattrItem → Option (Result Error (List XattrItem)) → Option (Result Error (List XattrItem))
prepend_item item none = none
prepend_item item (some (err e)) = some (err e)
prepend_item item (some (ok xs)) = some (ok (item ∷ xs))

unfoldable pub items_with :
    (XattrsIterator → Option (Result Error (List XattrItem)))
    → Option (XattrsIterator × Result Error XattrItem)
    → Option (Result Error (List XattrItem))
items_with rest none = some (ok [])
items_with rest (some (it, err e)) = some (err e)
items_with rest (some (it, ok item)) = prepend_item item (rest it)

unfoldable pub items : ℕ → XattrsIterator → Option (Result Error (List XattrItem))
items zero it = none
items (suc n) it = items_with (items n) (next it)
