-- ===== src/Peerofs/Disk/Entries/Progress.antt =====
-- Each step over the entries of a directory goes on, whatever the image holds.
use program_explorer.Prelude.{
  ℕ, ◌+◌, ◌*◌, ◌<◌, ◌≤◌, ◌≡◌, refl, arith, Bool, true, false, Option, none, some, length, drop,
  ◌==◌, ltb, inl, inr, ◌⊎◌, Bool-cases, length-drop,
}
use program_explorer.Prelude.Bytes.{Bytes}
use program_explorer.Prelude.Result.{Result, ok, err, IfOk, IfOk-bind, IfOk-all}
use program_explorer.Peerofs.Disk.{
  Error, DirentFileType, file_type_from, get_from, get_range, ref_from_prefix, div_mod_u16,
}
use program_explorer.Peerofs.Disk.Entries.{
  Dirent, DirentsIterator, dirent_from_prefix, get, count_entries, count_unless_empty, refill,
  reset_count, min, name_before, leave_block, name_last, name_of, next_item, next_at, next_impl,
  dirent_size,
}

abbrev optional_length : Option Bytes → ℕ
optional_length none = 0
optional_length (some b) = length b

-- The bytes that are left.
abbrev pub total : DirentsIterator → ℕ
total it = length it.bytes + optional_length it.remaining

-- No bytes come in.
pub record IsReset (it r : DirentsIterator) : Type 0 where
  pub total_le : total r ≤ total it
  pub block_size_eq : r.block_size ≡ it.block_size

IsReset-count_entries :
    (it : DirentsIterator) (d : Result Error Dirent) → IsReset it (count_entries it d).0
unfolding count_entries
IsReset-count_entries it (err e) = record { total_le = omega arith; block_size_eq = refl }
IsReset-count_entries it (ok d) =
    elim (Bool-cases ((div_mod_u16 d.name_offset dirent_size).1 == 0)) [
      | inl e ↦ rw e (record { total_le = omega arith; block_size_eq = refl })
      | inr e ↦ rw e (record { total_le = omega arith; block_size_eq = refl })
    ]

IsReset-count_unless_empty : (it : DirentsIterator) → IsReset it (count_unless_empty it).0
unfolding count_unless_empty
IsReset-count_unless_empty it = elim (Bool-cases (length it.bytes == 0)) [
  | inl e ↦ rw e (record { total_le = omega arith; block_size_eq = refl })
  | inr e ↦ rw e (IsReset-count_entries it (dirent_from_prefix it.bytes))
]

IsReset-refill :
    (it : DirentsIterator) (o : Option Bytes)
    → it.remaining ≡ o
    → length it.bytes ≡ 0
    → IsReset it (refill it o)
unfolding refill
IsReset-refill it none e h = record { total_le = omega arith; block_size_eq = refl }
IsReset-refill it (some b) e h = record { total_le = rw e (omega arith); block_size_eq = refl }

pub IsReset-reset_count : (it : DirentsIterator) → IsReset it (reset_count it).0
unfolding reset_count
IsReset-reset_count it = elim (Bool-cases (length it.bytes == 0)) [
  | inl e ↦ rw e (
      let a = IsReset-refill it it.remaining refl (ground arith) in
      let b = IsReset-count_unless_empty (refill it it.remaining) in
      record {
        total_le = omega (arith, a.total_le, b.total_le);
        block_size_eq = omega (arith, a.block_size_eq, b.block_size_eq);
      })
  | inr e ↦ rw e (IsReset-count_unless_empty it)
]

-- A step of the iterator: a block is left behind, or the index goes on in it.
pub record IsStep (it r : DirentsIterator) : Type 0 where
  pub block_size_eq : r.block_size ≡ it.block_size
  pub goes_on :
      (total r < total it)
      ⊎ ((r.bytes ≡ it.bytes) × (total r ≡ total it) × (r.i ≡ it.i + 1) × (it.i < length it.bytes))

-- An entry that is read lies inside the bytes.
get-inside :
    (it : DirentsIterator) (i : ℕ)
    → IfOk (λ d. i * dirent_size + dirent_size ≤ length it.bytes) (get it i)
unfolding get get_from dirent_from_prefix ref_from_prefix
get-inside it i = ground (arith, length-drop (i * dirent_size) it.bytes)

-- What is known of a step that had no error.
abbrev pub StepOk : {A : Type 0} → DirentsIterator → DirentsIterator × Result Error A → Type 0
StepOk it r = IfOk (λ a. IsStep it r.0) r.1

StepOk-leave_block :
    (it : DirentsIterator) (block_end : ℕ) (slice : Result Error Bytes)
    → 0 < block_end
    → 0 < length it.bytes
    → StepOk it (leave_block it block_end slice)
unfolding leave_block
StepOk-leave_block it block_end (err e) h k = tt
StepOk-leave_block it block_end (ok slice) h k =
    let next_it : DirentsIterator = record it { bytes = drop block_end it.bytes } in
    let a = IsReset-reset_count next_it in
    let l = length-drop block_end it.bytes in
    IfOk-bind (λ _. IsStep it (reset_count next_it).0) (λ _. IsStep it (reset_count next_it).0)
      (reset_count next_it).1 (λ _. ok _)
      (IfOk-all (λ _. IsStep it (reset_count next_it).0) (reset_count next_it).1
        (λ _ _. record {
          block_size_eq = a.block_size_eq;
          goes_on = inl (omega (arith, a.total_le));
        }))
      (λ _ s. s)

StepOk-name_before :
    (it : DirentsIterator) (d : Dirent) (r : Result Error Dirent)
    → it.i < length it.bytes
    → StepOk it (name_before it d r)
unfolding name_before
StepOk-name_before it d (err e) k = tt
StepOk-name_before it d (ok n) k =
    let r = name_before it d (ok n) in
    IfOk-all (λ _. IsStep it r.0) r.1
      (λ _ _. record { block_size_eq = refl; goes_on = inr (refl, refl, refl, k) })

StepOk-name_of :
    (it : DirentsIterator) (d : Dirent) (b : Bool)
    → 0 < it.block_size
    → it.i < length it.bytes
    → StepOk it (name_of it d b)
unfolding name_of name_last
StepOk-name_of it d true h k = StepOk-name_before it d (get it (it.i + 1)) k
StepOk-name_of it d false h k =
    let block_end : ℕ = min (length it.bytes) it.block_size in
    let pos : 0 < block_end = ground arith in
    StepOk-leave_block it block_end (get_range it.bytes d.name_offset block_end) pos
      (omega (arith, k))

StepOk-next_item :
    (it : DirentsIterator) (d : Dirent) (t : Result Error DirentFileType)
    → 0 < it.block_size
    → it.i < length it.bytes
    → StepOk it (next_item it d t)
unfolding next_item
StepOk-next_item it d (err e) h k = tt
StepOk-next_item it d (ok t) h k =
    let r = name_of it d (ltb (it.i + 1) it.count) in
    IfOk-bind (λ _. IsStep it r.0) (λ _. IsStep it r.0) r.1 (λ name. ok _)
      (StepOk-name_of it d (ltb (it.i + 1) it.count) h k) (λ _ s. s)

StepOk-next_at :
    (it : DirentsIterator) (r : Result Error Dirent)
    → 0 < it.block_size
    → IfOk (λ d. it.i * dirent_size + dirent_size ≤ length it.bytes) r
    → StepOk it (next_at it r)
unfolding next_at
StepOk-next_at it (err e) h k = tt
StepOk-next_at it (ok d) h k =
    StepOk-next_item it d (file_type_from d.file_type) h (omega (arith, k))

pub StepOk-next_impl : (it : DirentsIterator) → 0 < it.block_size → StepOk it (next_impl it)
unfolding next_impl
StepOk-next_impl it h = StepOk-next_at it (get it it.i) h (get-inside it it.i)
