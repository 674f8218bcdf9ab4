-- ===== src/Peerofs/Writer/Inodes/Xattrs.antt =====
-- The attributes of an inode as they are written, and read again.
use program_explorer.Prelude.{
  ℕ, suc, ◌+◌, ◌%◌, ◌^◌, ◌<◌, ◌≤◌, ◌≡◌, refl, sym, ap, ◌∙◌, arith, false, Option, none, some, List,
  [], ◌∷◌, ◌++◌, length, drop, ◌==◌, if◌then◌else◌, ltb, append_assoc, append-nil, length-append,
}
use program_explorer.Peerofs.Writer.Inodes.{xattrs_body}
use program_explorer.Prelude.Bytes.{Bytes, to_le_bytes, from-to_le_bytes-bound, length-to_le_bytes}
use program_explorer.Prelude.Result.{ok}
use program_explorer.Peerofs.Disk.{get_from, get_range, round_up_to}
use program_explorer.Peerofs.Disk.Structs.{zeros}
use program_explorer.Peerofs.Disk.Structs.RoundTrip.{ref_from_prefix-append}
use program_explorer.Peerofs.Disk.Entries.RoundTrip.{get_from-append, get_range-append}
use program_explorer.Peerofs.Disk.Attributes.{
  XattrEntry, XattrItem, XattrPrefix, builtin, xattr_entry_bytes, read_xattr_entry,
  xattr_entry_size, read_unshared, next_unshared, next_unshared_from, next, items, items_with,
  prepend_item, or_nothing, prefix_from, XattrsIterator,
}

-- An entry whose fields fit their widths, with the name and the value that it tells of.
pub record IsStored (e : XattrEntry) (name value : Bytes) : Type 0 where
  pub name_len_eq : e.name_len ≡ length name
  pub value_size_eq : e.value_size ≡ length value
  pub name_lt : length name < 2 ^ 8
  pub value_lt : length value < 2 ^ 16
  pub index_lt : e.name_index < 2 ^ 8
  pub not_empty : 0 < length name + length value

read-xattr_entry_bytes :
    (e : XattrEntry) (name value : Bytes)
    → IsStored e name value
    → read_xattr_entry (xattr_entry_bytes e) ≡ e
unfolding read_xattr_entry xattr_entry_bytes to_le_bytes
read-xattr_entry_bytes e name value i =
    let a = from-to_le_bytes-bound 1 e.name_len (omega (arith, i.name_len_eq, i.name_lt)) in
    let b = from-to_le_bytes-bound 1 e.name_index i.index_lt in
    let c = from-to_le_bytes-bound 2 e.value_size (omega (arith, i.value_size_eq, i.value_lt)) in
    rw (a, b, c) refl

length-xattr_entry_bytes : (e : XattrEntry) → length (xattr_entry_bytes e) ≡ 4
unfolding xattr_entry_bytes to_le_bytes
length-xattr_entry_bytes e = refl

-- One attribute, with the bytes up to the next multiple of four, in front of others.
read_unshared-append :
    (e : XattrEntry) (name value pad rest : Bytes)
    → IsStored e name value
    → length name + length value + length pad ≡ round_up_to 4 (length name + length value)
    → read_unshared (xattr_entry_bytes e ++ (name ++ (value ++ (pad ++ rest))))
      ≡ ok
          (record { name_index = e.name_index; name = name; value = value; rest = or_nothing rest })
unfolding read_unshared
read_unshared-append e name value pad rest i up =
    let body : Bytes = name ++ (value ++ (pad ++ rest)) in
    let first =
      ref_from_prefix-append xattr_entry_size (xattr_entry_bytes e) body
        (sym (length-xattr_entry_bytes e)) in
    let again = read-xattr_entry_bytes e name value i in
    let n = i.name_len_eq in
    let v = i.value_size_eq in
    let front : Bytes = (name ++ value) ++ pad in
    let eq : body ≡ front ++ rest =
      ap (λ t. name ++ t) (sym (append_assoc value pad rest))
      ∙ sym (append_assoc name (value ++ pad) rest)
      ∙ ap (λ t. t ++ rest) (sym (append_assoc name value pad)) in
    let len : length front ≡ length name + length value + length pad =
      omega (arith, length-append (name ++ value) pad, length-append name value) in
    let names : get_range body 0 (length name) ≡ ok name =
      get_range-append 0 (length name) [] name (value ++ (pad ++ rest)) refl (omega arith) in
    let values : get_range body (length name) (length name + length value) ≡ ok value =
      get_range-append (length name) (length name + length value) name value (pad ++ rest) refl
        refl in
    let rests : get_from body (round_up_to 4 (length name + length value)) ≡ ok rest =
      ap (λ b. get_from b (round_up_to 4 (length name + length value))) eq
      ∙ get_from-append (round_up_to 4 (length name + length value)) front rest
          (sym up ∙ sym len) in
    rw (first, again, n, v, names, values, rests) refl

-- An attribute as it is written, and what it is read as.
pub record Stored : Type 0 where
  pub entry : XattrEntry
  pub item : XattrItem

abbrev pub data_len : Stored → ℕ
data_len s = length s.item.name + length s.item.value

pub record IsWhole (s : Stored) : Type 0 where
  pub stored : IsStored s.entry s.item.name s.item.value
  pub prefix_eq : prefix_from s.entry.name_index ≡ ok s.item.prefix

-- The attributes one behind the other, with k zeros behind the last.
abbrev pub packed : ℕ → Stored → List Stored → Bytes
packed k s [] = xattr_entry_bytes s.entry ++ (s.item.name ++ (s.item.value ++ (zeros k ++ [])))
packed k s (t ∷ ts) =
    xattr_entry_bytes s.entry ++ (s.item.name ++ (s.item.value ++ ([] ++ packed k t ts)))

-- All but the last take a multiple of four bytes, the last with its zeros.
abbrev pub IsPacked : ℕ → Stored → List Stored → Type 0
IsPacked k s [] = IsWhole s × (data_len s + k ≡ round_up_to 4 (data_len s))
IsPacked k s (t ∷ ts) = IsWhole s × (data_len s % 4 ≡ 0) × IsPacked k t ts

abbrev pub read_items : Stored → List Stored → List XattrItem
read_items s [] = s.item ∷ []
read_items s (t ∷ ts) = s.item ∷ read_items t ts

-- The iterator in front of the bytes, with s in the other parts.
abbrev pub unshared : Bytes → Bytes → XattrsIterator
unshared shared bytes = record { bytes = bytes; shared = shared; shared_remaining = 0 }

next-whole :
    (s : Stored) (pad rest shared : Bytes)
    → IsWhole s
    → data_len s + length pad ≡ round_up_to 4 (data_len s)
    → next (
        unshared shared
          (xattr_entry_bytes s.entry ++ (s.item.name ++ (s.item.value ++ (pad ++ rest)))))
      ≡ some (unshared shared (or_nothing rest), ok s.item)
unfolding next next_unshared next_unshared_from
next-whole s pad rest shared h up =
    let bytes : Bytes = s.item.name ++ (s.item.value ++ (pad ++ rest)) in
    let l = length-append (xattr_entry_bytes s.entry) bytes in
    let k = length-xattr_entry_bytes s.entry in
    let some_bytes : (length (xattr_entry_bytes s.entry ++ bytes) == 0) ≡ false =
      ground (arith, l, k) in
    rw
      (
        some_bytes,
        read_unshared-append s.entry s.item.name s.item.value pad rest h.stored up,
        h.prefix_eq,
      )
      refl

length-packed : (k : ℕ) (s : Stored) (ts : List Stored) → 4 ≤ length (packed k s ts)
length-packed k s [] = omega (
  arith,
  length-append (xattr_entry_bytes s.entry) (s.item.name ++ (s.item.value ++ (zeros k ++ []))),
  length-xattr_entry_bytes s.entry,
)
length-packed k s (t ∷ ts) = omega (
  arith,
  length-append (xattr_entry_bytes s.entry)
      (s.item.name ++ (s.item.value ++ ([] ++ packed k t ts))),
  length-xattr_entry_bytes s.entry,
)

round_up-multiple : (n : ℕ) → 0 < n → n % 4 ≡ 0 → n + 0 ≡ round_up_to 4 n
unfolding round_up_to
round_up-multiple n h e = ground (arith, h, e)

or_nothing-packed :
    (k : ℕ) (s : Stored) (ts : List Stored) → or_nothing (packed k s ts) ≡ packed k s ts
unfolding or_nothing
or_nothing-packed k s ts =
    let e : ltb (length (packed k s ts)) 4 ≡ false = ground (arith, length-packed k s ts) in
    rw e refl

items-next :
    (n k : ℕ) (it it' : XattrsIterator) (x : XattrItem) (ys : List XattrItem)
    → n ≡ suc k
    → next it ≡ some (it', ok x)
    → items k it' ≡ some (ok ys)
    → items n it ≡ some (ok (x ∷ ys))
unfolding items items_with prepend_item
items-next n k it it' x ys h p q = rw (h, p, q) refl

items-nothing : (m : ℕ) (shared : Bytes) → items (suc m) (unshared shared []) ≡ some (ok [])
unfolding items items_with next
items-nothing m shared = refl

items-packed :
    (k : ℕ) (s : Stored) (ts : List Stored) (shared : Bytes) (m : ℕ)
    → IsPacked k s ts
    → items (length (s ∷ ts) + suc m) (unshared shared (packed k s ts))
      ≡ some (ok (read_items s ts))
unfolding or_nothing
items-packed k s [] shared m (h, up) =
    let z : data_len s + length (zeros k) ≡ round_up_to 4 (data_len s) =
      omega (arith, up, length-to_le_bytes k 0) in
    items-next (1 + suc m) (suc m) (unshared shared (packed k s [])) (unshared shared []) s.item []
      (omega arith) (next-whole s (zeros k) [] shared h z) (items-nothing m shared)
items-packed k s (t ∷ ts) shared m (h, four, hs) =
    let up = round_up-multiple (data_len s) h.stored.not_empty four in
    items-next (length (s ∷ t ∷ ts) + suc m) (length (t ∷ ts) + suc m)
      (unshared shared (packed k s (t ∷ ts))) (unshared shared (packed k t ts)) s.item
      (read_items t ts) (omega arith)
      (next-whole s [] (packed k t ts) shared h up
        ∙ ap (λ b. some (unshared shared b, ok s.item)) (or_nothing-packed k t ts))
      (items-packed k t ts shared m hs)

-- The prefix that a number below that of the last builtin one stands for.
abbrev pub prefix_of : ℕ → Option XattrPrefix
prefix_of i = if i == 0 then none else some (builtin i)

abbrev pub store : ℕ × XattrEntry → Bytes × Bytes → Stored
store e x = record {
  entry = e.1;
  item = record { prefix = prefix_of e.1.name_index; name = drop e.0 x.0; value = x.1 };
}

abbrev pub stores : List (ℕ × XattrEntry) → List (Bytes × Bytes) → List Stored
stores [] xs = []
stores (e ∷ es) [] = []
stores (e ∷ es) (x ∷ xs) = store e x ∷ stores es xs

part : (a b c rest : Bytes) → (a ++ (b ++ c)) ++ rest ≡ a ++ (b ++ (c ++ rest))
part a b c rest = append_assoc a (b ++ c) rest ∙ ap (λ t. a ++ t) (append_assoc b c rest)

xattrs_body-packed :
    (k : ℕ) (e : ℕ × XattrEntry) (es : List (ℕ × XattrEntry)) (x : Bytes × Bytes)
    (xs : List (Bytes × Bytes))
    → xattrs_body (e ∷ es) (x ∷ xs) ++ zeros k ≡ packed k (store e x) (stores es xs)
unfolding xattrs_body
xattrs_body-packed k e [] x xs =
    ap (λ t. t ++ zeros k) (append-nil (xattr_entry_bytes e.1 ++ (drop e.0 x.0 ++ x.1)))
    ∙ part (xattr_entry_bytes e.1) (drop e.0 x.0) x.1 (zeros k)
    ∙ ap (λ t. xattr_entry_bytes e.1 ++ (drop e.0 x.0 ++ (x.1 ++ t))) (sym (append-nil (zeros k)))
xattrs_body-packed k e (f ∷ es) x [] =
    ap (λ t. t ++ zeros k) (append-nil (xattr_entry_bytes e.1 ++ (drop e.0 x.0 ++ x.1)))
    ∙ part (xattr_entry_bytes e.1) (drop e.0 x.0) x.1 (zeros k)
    ∙ ap (λ t. xattr_entry_bytes e.1 ++ (drop e.0 x.0 ++ (x.1 ++ t))) (sym (append-nil (zeros k)))
xattrs_body-packed k e (f ∷ es) x (y ∷ xs) =
    let rest : Bytes = xattrs_body (f ∷ es) (y ∷ xs) in
    append_assoc (xattr_entry_bytes e.1 ++ (drop e.0 x.0 ++ x.1)) rest (zeros k)
    ∙ part (xattr_entry_bytes e.1) (drop e.0 x.0) x.1 (rest ++ zeros k)
    ∙ ap (λ t. xattr_entry_bytes e.1 ++ (drop e.0 x.0 ++ (x.1 ++ t)))
        (xattrs_body-packed k f es y xs)

-- Attributes that are written one behind the other, with k zeros behind the last, are read as they were
-- written, in their order, with the names behind the prefixes, if each is not empty, fits the widths of
-- its entry and has a builtin prefix or none, all but the last take a multiple of four bytes, and the
-- zeros fill the last one up to one.
pub items-xattrs_body :
    (k : ℕ) (e : ℕ × XattrEntry) (es : List (ℕ × XattrEntry)) (x : Bytes × Bytes)
    (xs : List (Bytes × Bytes)) (shared : Bytes) (m : ℕ)
    → IsPacked k (store e x) (stores es xs)
    → items
        (length (store e x ∷ stores es xs) + suc m)
        (unshared shared (xattrs_body (e ∷ es) (x ∷ xs) ++ zeros k))
      ≡ some (ok (read_items (store e x) (stores es xs)))
items-xattrs_body k e es x xs shared m h =
    ap (λ b. items (length (store e x ∷ stores es xs) + suc m) (unshared shared b))
      (xattrs_body-packed k e es x xs)
    ∙ items-packed k (store e x) (stores es xs) shared m h
