-- ===== src/Peerofs/Disk/Image/Clusters.antt =====
-- The loop over the clusters of a compressed file ends, whatever the image holds.
use program_explorer.Prelude.{
  ℕ, zero, suc, ◌+◌, ◌-◌, ◌<◌, ◌≡◌, ◌≢◌, refl, arith, Option, none, some, List, [], ◌∷◌, ◌++◌,
  length, ◌==◌, Bool-cases, ◌⊎◌, inl, inr,
}
use program_explorer.Prelude.Bytes.{Bytes}
use program_explorer.Prelude.Result.{
  Result, ok, err, ◌>>=◌, ensure, ok_or, IfOk, IfOk-bind, IfOk-all, IfOk-ok,
}
use program_explorer.Peerofs.Disk.{Error, oob, lci_malformed, get_range, decompress}
use program_explorer.Peerofs.Disk.Structs.{Inode, data_size}
use program_explorer.Peerofs.Disk.Image.{Erofs}
use program_explorer.Peerofs.Disk.Image.Compressed.{
  LogicalClusterIndex, LogicalClusterType, plain, head1, non_head, head2, typ, get_elem?, lci_at,
  len_over, len_by_type, pcluster_len, write_head, write_plain_block, write_plain, write_by_type,
  write_at, write_more, write_clusters, start_clusters, decompress_with, get_compressed_data_vec,
  MapHeader, get_map_header,
}

-- If the loop goes on, it goes on behind the index.
abbrev Later : ℕ → Option ℕ → Type 0
Later i none = Unit
Later i (some j) = i < j

abbrev Forward : {A : Type 0} → ℕ → Option ℕ × A → Type 0
Forward i r = Later i r.0

Forward-len_over :
    (lcis : List LogicalClusterIndex) (i block_len file_size : ℕ) (cur : LogicalClusterIndex)
    (j : ℕ) (next : Option LogicalClusterIndex)
    → i < j
    → IfOk (Forward i) (len_over lcis i block_len file_size cur j next)
unfolding len_over
Forward-len_over lcis i block_len file_size cur j (some next) h = h
Forward-len_over lcis i block_len file_size cur j none h =
    IfOk-bind (λ _. Unit) (Forward i) (ensure (j == length lcis) oob) (λ _. _)
      (IfOk-all (λ _. Unit) (ensure (j == length lcis) oob) (λ _ _. tt))
      (λ _ _.
        IfOk-bind (λ _. Unit) (Forward i) (ensure _ _) (λ _. ok (none, _))
          (IfOk-all (λ _. Unit) (ensure _ _) (λ _ _. tt)) (λ _ _. tt))

Forward-len_by_type :
    (lcis : List LogicalClusterIndex) (i block_len file_size : ℕ) (cur next : LogicalClusterIndex)
    (t : LogicalClusterType)
    → IfOk (Forward i) (len_by_type lcis i block_len file_size cur next t)
unfolding len_by_type
Forward-len_by_type lcis i block_len file_size cur next non_head =
    Forward-len_over lcis i block_len file_size cur (i + 1 + next.delta1)
      (get_elem? lcis (i + 1 + next.delta1)) (omega arith)
Forward-len_by_type lcis i block_len file_size cur next plain = omega arith
Forward-len_by_type lcis i block_len file_size cur next head1 = omega arith
Forward-len_by_type lcis i block_len file_size cur next head2 = omega arith

get_elem?-inside :
    (lcis : List LogicalClusterIndex) (i : ℕ) → (get_elem? lcis i ≡ none) ⊎ (i < length lcis)
get_elem?-inside [] i = inl refl
get_elem?-inside (l ∷ lcis) zero = inr (omega arith)
get_elem?-inside (l ∷ lcis) (suc i) = elim (get_elem?-inside lcis i) [
  | inl q ↦ inl q
  | inr q ↦ inr (omega (arith, q))
]

lci_at-inside :
    (lcis : List LogicalClusterIndex) (i : ℕ) → IfOk (λ _. i < length lcis) (lci_at lcis i)
lci_at-inside lcis i = elim (get_elem?-inside lcis i) [
  | inl q ↦ rw q tt
  | inr q ↦ IfOk-all (λ _. i < length lcis) (lci_at lcis i) (λ _ _. q)
]

-- A chain whose last part goes forward.
Forward-bind :
    {A B : Type 0} (i : ℕ) (r : Result Error A) (f : A → Result Error (Option ℕ × B))
    → ((a : A) → IfOk (Forward i) (f a))
    → IfOk (Forward i) (r >>= f)
Forward-bind i (ok a) f h = h a
Forward-bind i (err e) f h = tt

Forward-pcluster_len :
    (lcis : List LogicalClusterIndex) (i block_len file_size : ℕ)
    → IfOk (Forward i) (pcluster_len lcis i block_len file_size)
unfolding pcluster_len
Forward-pcluster_len lcis i block_len file_size =
    Forward-bind i (lci_at lcis i) (λ cur. _)
      (λ cur.
        Forward-bind i (lci_at lcis (i + 1)) (λ next. _)
          (λ next. Forward-len_by_type lcis i block_len file_size cur next (typ next)))

module _ (decompressor : Bytes → ℕ → Option Bytes) (e : Erofs) (block_len file_size : ℕ)
    (lcis : List LogicalClusterIndex) where
  Forward-write_head :
      (i : ℕ) (cur : LogicalClusterIndex)
      → IfOk (Forward i) (write_head decompressor e block_len file_size lcis i cur)
  unfolding write_head
  Forward-write_head i cur =
      Forward-bind i (get_range e.bytes _ _) (λ bytes. _)
        (λ bytes.
          IfOk-bind (Forward i) (Forward i) (pcluster_len lcis i block_len file_size) (λ next. _)
            (Forward-pcluster_len lcis i block_len file_size)
            (λ next h.
              Forward-bind i (ok_or (decompressor bytes next.1) decompress)
                (λ out. ok (next.0, out)) (λ out. h)))

  Forward-write_plain_block :
      (i : ℕ) (cur : LogicalClusterIndex)
      → IfOk (Forward i) (write_plain_block decompressor e block_len file_size lcis i cur)
  unfolding write_plain_block
  Forward-write_plain_block i cur =
      Forward-bind i (lci_at lcis (i + 1)) (λ next. _)
        (λ next.
          Forward-bind i (get_range e.bytes _ _) (λ bytes. ok (some (i + 1), bytes))
            (λ bytes. omega arith))

  Forward-write_plain :
      (i : ℕ) (cur : LogicalClusterIndex)
      → IfOk (Forward i) (write_plain decompressor e block_len file_size lcis i cur)
  unfolding write_plain
  Forward-write_plain i cur = elim (Bool-cases (cur.block_addr == 0)) [
    | inl q ↦ rw q (
        Forward-bind i (ensure (i + 1 == length lcis) lci_malformed) (λ _. ok (none, [])) (λ _. tt))
    | inr q ↦ rw q (Forward-write_plain_block i cur)
  ]

  Forward-write_by_type :
      (i : ℕ) (cur : LogicalClusterIndex) (t : LogicalClusterType)
      → IfOk (Forward i) (write_by_type decompressor e block_len file_size lcis i cur t)
  unfolding write_by_type
  Forward-write_by_type i cur plain = Forward-write_plain i cur
  Forward-write_by_type i cur head1 = Forward-write_head i cur
  Forward-write_by_type i cur head2 = tt
  Forward-write_by_type i cur non_head = tt

  -- A step that goes on stands at an index that there is.
  Inside-write_at :
      (i : ℕ)
      → IfOk
          (λ s. (i < length lcis) × Forward i s)
          (write_at decompressor e block_len file_size lcis i)
  unfolding write_at
  Inside-write_at i =
      IfOk-bind (λ _. i < length lcis) (λ s. (i < length lcis) × Forward i s) (lci_at lcis i)
        (λ cur. _) (lci_at-inside lcis i)
        (λ cur h.
          let r = write_by_type decompressor e block_len file_size lcis i cur (typ cur) in
          IfOk-all (λ s. (i < length lcis) × Forward i s) r
            (λ s q. (h, IfOk-ok (Forward i) r s q (Forward-write_by_type i cur (typ cur)))))

  HasResult-write_more :
      (rest : Bytes → ℕ → Option (Result Error Bytes)) (buf : Bytes) (n i : ℕ)
      (r : Result Error (Option ℕ × Bytes))
      → length lcis - i < suc n
      → IfOk (λ s. (i < length lcis) × Forward i s) r
      → ((b : Bytes) (j : ℕ) → length lcis - j < n → rest b j ≢ none)
      → write_more decompressor e block_len file_size lcis rest buf r ≢ none
  unfolding write_more
  HasResult-write_more rest buf n i (err x) l h k = λ q. cc
  HasResult-write_more rest buf n i (ok (none, out)) l h k = λ q. cc
  HasResult-write_more rest buf n i (ok (some j, out)) l h k =
      k (buf ++ out) j (omega (arith, l, h.0, h.1))

  HasResult-write_clusters :
      (n : ℕ) (buf : Bytes) (i : ℕ)
      → length lcis - i < n
      → write_clusters decompressor e block_len file_size lcis n buf i ≢ none
  unfolding write_clusters
  HasResult-write_clusters zero buf i h = absurd (omega (arith, h))
  HasResult-write_clusters (suc n) buf i h =
      HasResult-write_more (write_clusters decompressor e block_len file_size lcis n) buf n i
        (write_at decompressor e block_len file_size lcis i) h (Inside-write_at i)
        (λ b j k. HasResult-write_clusters n b j k)

HasResult-start_clusters :
    (decompressor : Bytes → ℕ → Option Bytes) (e : Erofs) (block_len file_size : ℕ)
    (r : Result Error (List LogicalClusterIndex))
    → start_clusters decompressor e block_len file_size r ≢ none
unfolding start_clusters
HasResult-start_clusters decompressor e block_len file_size (err x) = λ q. cc
HasResult-start_clusters decompressor e block_len file_size (ok []) = λ q. cc
HasResult-start_clusters decompressor e block_len file_size (ok (l ∷ lcis)) =
    HasResult-write_clusters decompressor e block_len file_size (l ∷ lcis) (length (l ∷ lcis) + 1)
      [] 0 (omega arith)

HasResult-decompress_with :
    (decompressor : Bytes → ℕ → Option Bytes) (e : Erofs) (inode : Inode)
    (r : Result Error MapHeader)
    → decompress_with decompressor e inode r ≢ none
unfolding decompress_with
HasResult-decompress_with decompressor e inode (err x) = λ q. cc
HasResult-decompress_with decompressor e inode (ok h) =
    HasResult-start_clusters decompressor e _ (data_size inode) _

-- Whatever the image and the inode hold, and whatever the decompressor makes of a cluster, reading a
-- compressed file comes to an end, with the bytes or with an error: the fuel of one more than the
-- number of its cluster indices is enough, since each turn of the loop goes on behind its index.
pub get_compressed_data_vec-HasResult :
    (decompressor : Bytes → ℕ → Option Bytes) (e : Erofs) (inode : Inode)
    → get_compressed_data_vec decompressor e inode ≢ none
unfolding get_compressed_data_vec
get_compressed_data_vec-HasResult decompressor e inode =
    HasResult-decompress_with decompressor e inode (get_map_header e inode)
