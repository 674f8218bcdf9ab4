-- ===== src/Peerofs/Writer/Inodes/Length.antt =====
-- The attributes of an inode take as many bytes as its count says.
use program_explorer.Prelude.{
  ℕ, ◌+◌, ◌-◌, ◌*◌, ◌/◌, ◌^◌, ◌<◌, ◌≤◌, ◌≡◌, refl, arith, true, false, List, [], ◌∷◌, ◌++◌, length,
  drop, ◌==◌, ltb, length-append, length-drop, Bool-cases, inl, inr,
}
use program_explorer.Prelude.Bytes.{Bytes, to_le_bytes, length-to_le_bytes}
use program_explorer.Prelude.Result.{ok, ◌>>◌, ensure, IfOk, IfOk-bind, IfOk-ok, IfOk-ensure}
use program_explorer.Peerofs.Disk.{round_up_to}
use program_explorer.Peerofs.Disk.Structs.{zeros}
use program_explorer.Peerofs.Disk.Attributes.{
  XattrEntry, xattr_entry_bytes, xattr_header_size, entries_len, xattr_count, xattr_count_to_len,
  starts_with, find_prefix, xattr_builtin_prefix, xattr_builtin_prefix_table,
}
use program_explorer.Peerofs.Writer.{xattr_key_too_long, xattr_value_too_long}
use program_explorer.Peerofs.Writer.Inodes.{
  prefix_or_none, make_xattr_entry, make_xattr_entries, xattrs_body, xattrs_bytes, entries_of,
}

-- A key has its prefix.
starts_with-length : (key p : Bytes) → starts_with key p ≡ true → length p ≤ length key
starts_with-length key [] h = omega arith
starts_with-length [] (p ∷ ps) h = absurd (ground arith)
starts_with-length (k ∷ ks) (p ∷ ps) h =
    let q : starts_with ks ps ≡ true = ground arith in omega (arith, starts_with-length ks ps q)

find_prefix-length :
    (i : ℕ) (key : Bytes) (ps : List Bytes) → (prefix_or_none (find_prefix i key ps)).1 ≤ length key
unfolding find_prefix
find_prefix-length i key [] = omega arith
find_prefix-length i key (p ∷ ps) = elim (Bool-cases (starts_with key p)) [
  | inl e ↦ rw e (starts_with-length key p e)
  | inr e ↦ rw e (find_prefix-length (i + 1) key ps)
]

-- What an entry stands for.
record IsEntry (key value : Bytes) (e : ℕ × XattrEntry) : Type 0 where
  prefix_le : e.0 ≤ length key
  name_len_eq : e.1.name_len ≡ length key - e.0
  value_size_eq : e.1.value_size ≡ length value

IsEntry-make_xattr_entry :
    (key value : Bytes) → IfOk (IsEntry key value) (make_xattr_entry key value)
unfolding make_xattr_entry xattr_builtin_prefix
IsEntry-make_xattr_entry key value =
    let prefix : ℕ × ℕ = prefix_or_none (find_prefix 1 key xattr_builtin_prefix_table) in
    let name_len : ℕ = length key - prefix.1 in
    let e : ℕ × XattrEntry = (
      prefix.1,
      record { name_len = name_len; name_index = prefix.0; value_size = length value },
    ) in
    IfOk-ensure (IsEntry key value) (ltb name_len (2 ^ 8)) xattr_key_too_long
      (ensure (ltb (length value) (2 ^ 16)) xattr_value_too_long >> ok e)
      (IfOk-ensure (IsEntry key value) (ltb (length value) (2 ^ 16)) xattr_value_too_long (ok e)
        (record {
          prefix_le = find_prefix-length 1 key xattr_builtin_prefix_table;
          name_len_eq = refl;
          value_size_eq = refl;
        }))

length-xattr_entry_bytes : (e : XattrEntry) → length (xattr_entry_bytes e) ≡ 4
unfolding xattr_entry_bytes to_le_bytes
length-xattr_entry_bytes e = refl

abbrev HasLength : List (Bytes × Bytes) → List (ℕ × XattrEntry) → Type 0
HasLength xattrs es =
    (length (xattrs_body es xattrs) ≡ entries_len (entries_of es))
    × (0 < length xattrs → 0 < entries_len (entries_of es))

HasLength-cons :
    (key value : Bytes) (xattrs : List (Bytes × Bytes)) (e : ℕ × XattrEntry)
    (es : List (ℕ × XattrEntry))
    → IsEntry key value e
    → HasLength xattrs es
    → HasLength ((key, value) ∷ xattrs) (e ∷ es)
unfolding xattrs_body
HasLength-cons key value xattrs e es i h = (
  omega (
    arith,
    length-append (xattr_entry_bytes e.1 ++ (drop e.0 key ++ value)) (xattrs_body es xattrs),
    length-append (xattr_entry_bytes e.1) (drop e.0 key ++ value),
    length-append (drop e.0 key) value,
    length-drop e.0 key,
    length-xattr_entry_bytes e.1,
    i.prefix_le,
    i.name_len_eq,
    i.value_size_eq,
    h.0,
  ),
  λ _. omega arith,
)

HasLength-make_xattr_entries :
    (xattrs : List (Bytes × Bytes)) → IfOk (HasLength xattrs) (make_xattr_entries xattrs)
unfolding make_xattr_entries xattrs_body
HasLength-make_xattr_entries [] = (refl, λ h. h)
HasLength-make_xattr_entries ((key, value) ∷ xattrs) =
    IfOk-bind (IsEntry key value) (HasLength ((key, value) ∷ xattrs)) (make_xattr_entry key value)
      (λ e. _) (IsEntry-make_xattr_entry key value)
      (λ e i.
        IfOk-bind (HasLength xattrs) (HasLength ((key, value) ∷ xattrs)) (make_xattr_entries xattrs)
          (λ es. ok (e ∷ es)) (HasLength-make_xattr_entries xattrs)
          (λ es h. HasLength-cons key value xattrs e es i h))

no_entries : xattr_count_to_len (xattr_count []).xattr_count ≡ 0
unfolding xattr_count_to_len xattr_count
no_entries = refl

xattr_count-padding :
    (es : List XattrEntry)
    → 0 < entries_len es
    → let c = xattr_count es in xattr_count_to_len c.xattr_count ≡ 12 + entries_len es + c.padding
unfolding xattr_count xattr_count_to_len round_up_to
xattr_count-padding es h =
    let n : ℕ = entries_len es in
    let e : (n == 0) ≡ false = ground arith in
    let k : ((((n + 3) / 4) * 4) / 4 + 1 == 0) ≡ false = ground arith in rw (e, k) (omega arith)

-- The bytes of the attributes, their header and padding included, are as many as the count of the
-- inode stands for.
pub length-xattrs_bytes :
    (xattrs : List (Bytes × Bytes)) (es : List (ℕ × XattrEntry))
    → make_xattr_entries xattrs ≡ ok es
    → length (xattrs_bytes es xattrs) ≡ xattr_count_to_len (xattr_count (entries_of es)).xattr_count
unfolding xattrs_bytes make_xattr_entries
length-xattrs_bytes [] es h = let e : es ≡ [] = cc in rw (e, no_entries) refl
length-xattrs_bytes (x ∷ xs) es h =
    let i =
      IfOk-ok (HasLength (x ∷ xs)) (make_xattr_entries (x ∷ xs)) es h
        (HasLength-make_xattr_entries (x ∷ xs)) in
    let c = xattr_count (entries_of es) in
    omega (
      arith,
      length-append (zeros xattr_header_size ++ xattrs_body es (x ∷ xs)) (zeros c.padding),
      length-append (zeros xattr_header_size) (xattrs_body es (x ∷ xs)),
      length-to_le_bytes xattr_header_size 0,
      length-to_le_bytes c.padding 0,
      i.0,
      xattr_count-padding (entries_of es) (i.1 (omega arith)),
    )
