-- ===== src/Peerofs/Disk/Image/Lookup.antt =====
-- The lookup of a path in an image ends, whatever the image holds.
use program_explorer.Prelude.{
  ℕ, zero, suc, ◌%◌, ◌^◌, ◌<◌, ◌≡◌, ◌≢◌, refl, arith, Option, none, some, List, [], ◌∷◌,
}
use native.Mathlib.Numerals.{unary_clauses}
use program_explorer.Prelude.Bytes.{Bytes}
use program_explorer.Prelude.Result.{Result, ok, err, IfOk, IfOk-bind, IfOk-all}
use program_explorer.Peerofs.Disk.{Error}
use program_explorer.Peerofs.Disk.Structs.{Inode}
use program_explorer.Peerofs.Disk.Entries.{DirentsIterator, DirentItem, new_iterator}
use program_explorer.Peerofs.Disk.Entries.Ends.{items-HasResult}
use program_explorer.Peerofs.Disk.Image.{
  Erofs, block_size, get_dirents, get_inode_from_dirent, get_root_inode, entries_of, search_dir,
  or_lookup, then_lookup, lookup_from, lookup,
}

-- The iterator is the one over the bytes.
abbrev IsOver : Erofs → Bytes × Bytes × DirentsIterator → Type 0
IsOver e (block, tail, it) = new_iterator (block, tail) (block_size e) ≡ ok it

IsOver-entries_of : (e : Erofs) (inode : Inode) → IfOk (IsOver e) (entries_of e inode)
unfolding entries_of
IsOver-entries_of e inode =
    IfOk-bind (λ _. Unit) (IsOver e) (get_dirents e inode) (λ bytes. _)
      (IfOk-all (λ _. Unit) (get_dirents e inode) (λ _ _. tt))
      (λ bytes _.
        IfOk-bind (λ it. new_iterator bytes (block_size e) ≡ ok it) (IsOver e)
          (new_iterator bytes (block_size e)) (λ it. ok (bytes.0, bytes.1, it))
          (IfOk-all (λ it. new_iterator bytes (block_size e) ≡ ok it)
            (new_iterator bytes (block_size e)) (λ it q. q))
          (λ it q. q))

power-positive : (n : ℕ) → 0 < 2 ^ n
power-positive zero = omega arith
power-positive (suc n) = let q = power-positive n in simp unary_clauses (omega (arith, q))

block_size-positive : (e : Erofs) → 0 < block_size e
block_size-positive e = power-positive (e.sb.blkszbits % 64)

HasResult-search_dir :
    (e : Erofs) (name : Bytes) (r : Result Error (Bytes × Bytes × DirentsIterator))
    → IfOk (IsOver e) r
    → search_dir name r ≢ none
unfolding search_dir
HasResult-search_dir e name (err x) h = λ q. cc
HasResult-search_dir e name (ok (block, tail, it)) h =
    (items-HasResult (block, tail) (block_size e) it name (block_size-positive e) h).1

HasResult-or_lookup :
    (rest : Inode → Option (Result Error (Option Inode))) (r : Result Error Inode)
    → ((inode : Inode) → rest inode ≢ none)
    → or_lookup rest r ≢ none
unfolding or_lookup
HasResult-or_lookup rest (err x) h = λ q. cc
HasResult-or_lookup rest (ok inode) h = h inode

HasResult-then_lookup :
    (e : Erofs) (rest : Inode → Option (Result Error (Option Inode)))
    (r : Option (Result Error (Option DirentItem)))
    → r ≢ none
    → ((inode : Inode) → rest inode ≢ none)
    → then_lookup e rest r ≢ none
unfolding then_lookup
HasResult-then_lookup e rest none k h = absurd (k refl)
HasResult-then_lookup e rest (some (err x)) k h = λ q. cc
HasResult-then_lookup e rest (some (ok none)) k h = λ q. cc
HasResult-then_lookup e rest (some (ok (some item))) k h =
    HasResult-or_lookup rest (get_inode_from_dirent e item) h

HasResult-lookup_from :
    (e : Erofs) (names : List Bytes) (cur : Inode) → lookup_from e names cur ≢ none
unfolding lookup_from
HasResult-lookup_from e [] cur = λ q. cc
HasResult-lookup_from e (name ∷ names) cur =
    HasResult-then_lookup e (lookup_from e names) (search_dir name (entries_of e cur))
      (HasResult-search_dir e name (entries_of e cur) (IsOver-entries_of e cur))
      (HasResult-lookup_from e names)

-- Whatever the image holds, the lookup of a path comes to an end: with an inode, with none, or with an
-- error.
pub lookup-HasResult : (e : Erofs) (names : List Bytes) → lookup e names ≢ none
unfolding lookup
lookup-HasResult e names =
    HasResult-or_lookup (lookup_from e names) (get_root_inode e) (HasResult-lookup_from e names)
