-- ===== src/Peerofs/Disk/Entries/Ends.antt =====
-- The loops over the entries of a directory end, whatever the image holds.
use program_explorer.Prelude.{
  ℕ, zero, suc, ◌+◌, ◌-◌, ◌*◌, ◌<◌, ◌≤◌, ◌≡◌, ◌≢◌, refl, ap, arith, Bool, true, false, Option, none,
  some, List, length, ltb, inl, inr, Bool-cases,
}
use program_explorer.Prelude.Bytes.{Bytes, bytes_eq}
use program_explorer.Prelude.Result.{Result, ok, err, IfOk, IfOk-bind, IfOk-all, IfOk-ok}
use program_explorer.Peerofs.Disk.{Error}
use program_explorer.Peerofs.Disk.Entries.{
  DirentItem, DirentsIterator, reset_count, next_impl, next, items, items_with, prepend_item,
  find_item, find_with, found_or, new_iterator, loop_fuel,
}
use program_explorer.Peerofs.Disk.Entries.Progress.{
  total, IsReset-reset_count, IsStep, StepOk-next_impl,
}

times_lt : (k a b : ℕ) → a < b → k * a + k ≤ k * b
times_lt zero a b h = omega arith
times_lt (suc k) a b h = let q = times_lt k a b h in grind (arith, q)

times_le : (k a b : ℕ) → a ≤ b → k * a ≤ k * b
times_le zero a b h = omega arith
times_le (suc k) a b h = let q = times_le k a b h in grind (arith, q)

-- The steps that an iterator can still make: in the block, and in all that follows.
module _ (limit : ℕ) where
  abbrev measure : DirentsIterator → ℕ
  measure it = limit * total it + (length it.bytes - it.i)

  measure-step : (it r : DirentsIterator) → total it ≤ limit → IsStep it r → measure r < measure it
  measure-step it r h s = elim s.goes_on [
    | inl e ↦
        let a : length r.bytes ≤ total r = omega arith in
        let b : limit * total r + limit ≤ limit * total it =
          times_lt limit (total r) (total it) e in
        omega (arith, a, b, e)
    | inr (e, f, g, k) ↦
        let a : length r.bytes ≡ length it.bytes = ap length e in
        let b : limit * total r ≡ limit * total it = ap (λ n. limit * n) f in
        omega (arith, a, b, g, k)
  ]

HasResult-prepend_item :
    (item : DirentItem) (o : Option (Result Error (List DirentItem)))
    → o ≢ none
    → prepend_item item o ≢ none
unfolding prepend_item
HasResult-prepend_item item none h = absurd (h refl)
HasResult-prepend_item item (some (err e)) h = λ q. cc
HasResult-prepend_item item (some (ok xs)) h = λ q. cc

HasResult-items_with :
    (rest : DirentsIterator → Option (Result Error (List DirentItem)))
    (r : DirentsIterator × Result Error DirentItem)
    → IfOk (λ _. rest r.0 ≢ none) r.1
    → items_with rest (some r) ≢ none
unfolding items_with
HasResult-items_with rest (it, err e) h = λ q. cc
HasResult-items_with rest (it, ok item) h = HasResult-prepend_item item (rest it) h

HasResult-found_or :
    (item : DirentItem) (rest : Option (Result Error (Option DirentItem))) (b : Bool)
    → rest ≢ none
    → found_or item rest b ≢ none
unfolding found_or
HasResult-found_or item rest true h = λ q. cc
HasResult-found_or item rest false h = h

HasResult-find_with :
    (name : Bytes) (rest : DirentsIterator → Option (Result Error (Option DirentItem)))
    (r : DirentsIterator × Result Error DirentItem)
    → IfOk (λ _. rest r.0 ≢ none) r.1
    → find_with name rest (some r) ≢ none
unfolding find_with
HasResult-find_with name rest (it, err e) h = λ q. cc
HasResult-find_with name rest (it, ok item) h =
    HasResult-found_or item (rest it) (bytes_eq item.name name) h

-- What both loops need of a step: the rest has the result.
step-IfOk :
    {A : Type 0} (limit n : ℕ) (it : DirentsIterator) (rest : DirentsIterator → Option A)
    → 0 < it.block_size
    → total it ≤ limit
    → measure limit it < suc n
    → ((r : DirentsIterator)
        → 0 < r.block_size
        → total r ≤ limit
        → measure limit r < n
        → rest r ≢ none)
    → IfOk (λ _. rest (next_impl it).0 ≢ none) (next_impl it).1
step-IfOk limit n it rest h k l f =
    IfOk-all (λ _. rest (next_impl it).0 ≢ none) (next_impl it).1
      (λ a e.
        let s =
          IfOk-ok (λ _. IsStep it (next_impl it).0) (next_impl it).1 a e (StepOk-next_impl it h) in
        let m = measure-step limit it (next_impl it).0 k s in
        let t : total (next_impl it).0 ≤ limit = elim s.goes_on [
          | inl e ↦ omega (arith, e)
          | inr (e, g, o, q) ↦ omega (arith, g)
        ] in
        f (next_impl it).0 (omega (arith, s.block_size_eq)) t (omega (arith, m)))

HasResult-items :
    (limit n : ℕ) (it : DirentsIterator)
    → 0 < it.block_size
    → total it ≤ limit
    → measure limit it < n
    → items n it ≢ none
unfolding items items_with next
HasResult-items limit zero it h k l = absurd (omega (arith, l))
HasResult-items limit (suc n) it h k l = elim (Bool-cases (ltb it.i it.count)) [
  | inl e ↦ rw e (
      HasResult-items_with (items n) (next_impl it)
        (step-IfOk limit n it (items n) h k l (λ r. HasResult-items limit n r)))
  | inr e ↦ rw e (λ q. cc)
]

HasResult-find_item :
    (limit n : ℕ) (name : Bytes) (it : DirentsIterator)
    → 0 < it.block_size
    → total it ≤ limit
    → measure limit it < n
    → find_item n name it ≢ none
unfolding find_item find_with next
HasResult-find_item limit zero name it h k l = absurd (omega (arith, l))
HasResult-find_item limit (suc n) name it h k l = elim (Bool-cases (ltb it.i it.count)) [
  | inl e ↦ rw e (
      HasResult-find_with name (find_item n name) (next_impl it)
        (step-IfOk limit n it (find_item n name) h k l (λ r. HasResult-find_item limit n name r)))
  | inr e ↦ rw e (λ q. cc)
]

-- What the iterator starts with.
record IsStart (bytes : Bytes × Bytes) (block_size : ℕ) (it : DirentsIterator) : Type 0 where
  total_le : total it ≤ length bytes.0 + length bytes.1
  block_size_eq : it.block_size ≡ block_size

IsStart-new_iterator :
    (bytes : Bytes × Bytes) (block_size : ℕ)
    → IfOk (IsStart bytes block_size) (new_iterator bytes block_size)
unfolding new_iterator
IsStart-new_iterator bytes block_size =
    let it : DirentsIterator = record {
      bytes = bytes.0;
      remaining = some bytes.1;
      i = 0;
      count = 0;
      block_size = block_size;
    } in
    let a = IsReset-reset_count it in
    IfOk-bind (λ _. IsStart bytes block_size (reset_count it).0) (IsStart bytes block_size)
      (reset_count it).1 (λ _. ok (reset_count it).0)
      (IfOk-all (λ _. IsStart bytes block_size (reset_count it).0) (reset_count it).1
        (λ _ _. record { total_le = a.total_le; block_size_eq = a.block_size_eq }))
      (λ _ s. s)

-- Any bytes, of any image: with a block size that is not zero, the fuel for the bytes is enough for
-- both loops over the entries, the one that sees them all and the one that looks for a name; each has
-- a result, be it an error.
pub items-HasResult :
    (bytes : Bytes × Bytes) (block_size : ℕ) (it : DirentsIterator) (name : Bytes)
    → 0 < block_size
    → new_iterator bytes block_size ≡ ok it
    → (items (loop_fuel bytes) it ≢ none) × (find_item (loop_fuel bytes) name it ≢ none)
items-HasResult bytes block_size it name h e =
    let limit : ℕ = length bytes.0 + length bytes.1 in
    let s =
      IfOk-ok (IsStart bytes block_size) (new_iterator bytes block_size) it e
        (IsStart-new_iterator bytes block_size) in
    let a = s.total_le in
    let pos : 0 < it.block_size = omega (arith, s.block_size_eq) in
    let b : limit * total it ≤ limit * limit = times_le limit (total it) limit a in
    let m : measure limit it < loop_fuel bytes = omega (arith, a, b) in
    (
      HasResult-items limit (loop_fuel bytes) it pos a m,
      HasResult-find_item limit (loop_fuel bytes) name it pos a m,
    )
