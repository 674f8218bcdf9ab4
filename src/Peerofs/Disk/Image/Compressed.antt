-- ===== src/Peerofs/Disk/Image/Compressed.antt =====
-- Compressed files in disk.rs: `MapHeader`, `LogicalClusterIndex`, and the loop of
-- `get_compressed_data` into a vector. The decompressor is a parameter: of the bytes of a cluster and
-- the length that is wanted it makes the bytes that it writes.
use program_explorer.Prelude.{
  ℕ, zero, suc, ◌+◌, ◌-◌, ◌*◌, ◌/◌, ◌%◌, ◌^◌, Bool, true, false, not, Option, none, some, List, [],
  ◌∷◌, ◌++◌, length, take, drop, ◌==◌, ltb, if◌then◌else◌,
}
use program_explorer.Prelude.Bytes.{Bytes}
use program_explorer.Prelude.Result.{Result, ok, err, ◌>>=◌, ◌>>◌, ensure, ok_or}
use program_explorer.Peerofs.Disk.{
  Error, oob, not_compressed, not_compressed_full, decompress, lci_malformed, underflow,
  head2_not_supported, compression_not_supported, CompressionType, lz4, compression_from, Layout,
  compressed_full, is_compressed, get_from, get_range, ref_from_prefix, field, round_up_to,
}
use program_explorer.Peerofs.Disk.Structs.{Inode, layout, data_size}
use program_explorer.Peerofs.Disk.Image.{Erofs, block_size, block_offset, inode_end, wrap}

pub data LogicalClusterType : Type 0 where
  plain head1 non_head head2 : LogicalClusterType

pub record LogicalClusterIndex : Type 0 where
  pub advise : ℕ
  pub cluster_offset : ℕ
  pub block_addr : ℕ
  pub delta1 : ℕ

abbrev pub lci_size : ℕ
lci_size = 8

-- The last four bytes are an address, or two differences.
unfoldable pub read_lci : Bytes → LogicalClusterIndex
read_lci b = record {
  advise = field 0 2 b;
  cluster_offset = field 2 2 b;
  block_addr = field 4 4 b;
  delta1 = field 6 2 b;
}

unfoldable pub typ : LogicalClusterIndex → LogicalClusterType
typ lci =
    let t : ℕ = lci.advise % 4 in
    if t == 0 then plain else if t == 1 then head1 else if t == 2 then non_head else head2

pub record MapHeader : Type 0 where
  pub algorithm : ℕ
  pub cluster_bits : ℕ

abbrev pub map_header_size : ℕ
map_header_size = 8

unfoldable pub read_map_header : Bytes → MapHeader
read_map_header b = record { algorithm = field 6 1 b; cluster_bits = field 7 1 b }

unfoldable pub compression_type_1 : MapHeader → Result Error CompressionType
compression_type_1 h = compression_from (h.algorithm % 16)

unfoldable pub compression_type_2 : MapHeader → Result Error CompressionType
compression_type_2 h = compression_from ((h.algorithm / 16) % 16)

unfoldable pub cluster_size_bits : MapHeader → ℕ
cluster_size_bits h = h.cluster_bits % 8

unfoldable pub get_map_header : Erofs → Inode → Result Error MapHeader
get_map_header e inode = do
  l ← layout inode
  ensure (is_compressed l) not_compressed
  rest ← get_from e.bytes (round_up_to 8 (inode_end e inode))
  h ← ref_from_prefix map_header_size rest
  ok (read_map_header h.0)

abbrev pub is_full : Layout → Bool
is_full compressed_full = true
is_full l = false

-- `ref_from_prefix_with_elems`, whose bytes are known to be enough.
abbrev pub read_lcis : ℕ → Bytes → List LogicalClusterIndex
read_lcis zero bytes = []
read_lcis (suc n) bytes = read_lci (take lci_size bytes) ∷ read_lcis n (drop lci_size bytes)

unfoldable pub get_logical_cluster_indices : Erofs → Inode → Result Error (List LogicalClusterIndex)
get_logical_cluster_indices e inode = do
  l ← layout inode
  ensure (is_full l) not_compressed_full
  let n = (data_size inode + (block_size e - 1)) / block_size e
  bytes ← get_from e.bytes (wrap (round_up_to 8 (inode_end e inode) + map_header_size + 8))
  prefix ← ref_from_prefix (n * lci_size) bytes
  ok (read_lcis n prefix.0)

abbrev pub get_elem? {ℓ} : {A : Type ℓ} → List A → ℕ → Option A
get_elem? [] i = none
get_elem? (x ∷ xs) zero = some x
get_elem? (x ∷ xs) (suc i) = get_elem? xs i

-- `get(i).ok_or(Error::Oob)?`
abbrev pub lci_at : List LogicalClusterIndex → ℕ → Result Error LogicalClusterIndex
lci_at lcis i = ok_or (get_elem? lcis i) oob

-- The difference of usize numbers, which wraps around.
abbrev pub minus : ℕ → ℕ → ℕ
minus a b = (a + 2 ^ 64 - b) % 2 ^ 64

abbrev pub len_to : ℕ → ℕ → ℕ → LogicalClusterIndex → LogicalClusterIndex → Option ℕ × ℕ
len_to block_len i j cur next_head =
    (some j, minus (wrap ((j - i) * block_len + next_head.cluster_offset)) cur.cluster_offset)

-- Behind an index that is no head: the next head, if there is one, or the end of the file.
unfoldable pub len_over :
    List LogicalClusterIndex
    → ℕ
    → ℕ
    → ℕ
    → LogicalClusterIndex
    → ℕ
    → Option LogicalClusterIndex
    → Result Error (Option ℕ × ℕ)
len_over lcis i block_len file_size cur j (some next_head) = ok (len_to block_len i j cur next_head)
len_over lcis i block_len file_size cur j none = do
  ensure (j == length lcis) oob
  let start = wrap (i * block_len + cur.cluster_offset)
  ensure (not (ltb file_size start)) underflow
  ok (none, file_size - start)

unfoldable pub len_by_type :
    List LogicalClusterIndex
    → ℕ
    → ℕ
    → ℕ
    → LogicalClusterIndex
    → LogicalClusterIndex
    → LogicalClusterType
    → Result Error (Option ℕ × ℕ)
len_by_type lcis i block_len file_size cur next non_head =
    let j : ℕ = i + 1 + next.delta1 in len_over lcis i block_len file_size cur j (get_elem? lcis j)
len_by_type lcis i block_len file_size cur next t = ok (len_to block_len i (i + 1) cur next)

-- The next head's place, if there is one, and the length of the cluster.
unfoldable pub pcluster_len : List LogicalClusterIndex → ℕ → ℕ → ℕ → Result Error (Option ℕ × ℕ)
pcluster_len lcis i block_len file_size = do
  cur ← lci_at lcis i
  next ← lci_at lcis (i + 1)
  len_by_type lcis i block_len file_size cur next (typ next)

module _ (decompressor : Bytes → ℕ → Option Bytes) (e : Erofs) (block_len file_size : ℕ)
    (lcis : List LogicalClusterIndex) where
  -- A cluster that is compressed: where the loop goes on, and what is written.
  unfoldable pub write_head : ℕ → LogicalClusterIndex → Result Error (Option ℕ × Bytes)
  write_head i cur = do
    let data_begin = block_offset e cur.block_addr
    bytes ← get_range e.bytes data_begin (wrap (data_begin + block_len))
    next ← pcluster_len lcis i block_len file_size
    out ← ok_or (decompressor bytes next.1) decompress
    ok (next.0, out)

  unfoldable pub write_plain_block : ℕ → LogicalClusterIndex → Result Error (Option ℕ × Bytes)
  write_plain_block i cur = do
    next ← lci_at lcis (i + 1)
    let data_begin = block_offset e cur.block_addr
    let data_len = minus (wrap (block_len + next.cluster_offset)) cur.cluster_offset
    bytes ← get_range e.bytes data_begin (wrap (data_begin + data_len))
    ok (some (i + 1), bytes)

  -- Bytes that are not compressed; the last index has no address and ends the loop.
  unfoldable pub write_plain : ℕ → LogicalClusterIndex → Result Error (Option ℕ × Bytes)
  write_plain i cur =
      if cur.block_addr == 0
      then (ensure (i + 1 == length lcis) lci_malformed >>= λ _. ok (none, []))
      else write_plain_block i cur

  unfoldable pub write_by_type :
      ℕ → LogicalClusterIndex → LogicalClusterType → Result Error (Option ℕ × Bytes)
  write_by_type i cur head1 = write_head i cur
  write_by_type i cur plain = write_plain i cur
  write_by_type i cur head2 = err head2_not_supported
  write_by_type i cur non_head = err lci_malformed

  unfoldable pub write_at : ℕ → Result Error (Option ℕ × Bytes)
  write_at i = lci_at lcis i >>= λ cur. write_by_type i cur (typ cur)

  -- The loop, with what it has written; none where the fuel does not suffice.
  unfoldable pub write_more :
      (Bytes → ℕ → Option (Result Error Bytes))
      → Bytes
      → Result Error (Option ℕ × Bytes)
      → Option (Result Error Bytes)
  write_more rest buf (err x) = some (err x)
  write_more rest buf (ok (none, out)) = some (ok (buf ++ out))
  write_more rest buf (ok (some i, out)) = rest (buf ++ out) i

  unfoldable pub write_clusters : ℕ → Bytes → ℕ → Option (Result Error Bytes)
  write_clusters zero buf i = none
  write_clusters (suc n) buf i = write_more (write_clusters n) buf (write_at i)

unfoldable pub get_decompressor : CompressionType → Result Error (Unit {0})
get_decompressor lz4 = ok tt
get_decompressor t = err (compression_not_supported t)

unfoldable pub start_clusters :
    (Bytes → ℕ → Option Bytes)
    → Erofs
    → ℕ
    → ℕ
    → Result Error (List LogicalClusterIndex)
    → Option (Result Error Bytes)
start_clusters decompressor e block_len file_size (err x) = some (err x)
start_clusters decompressor e block_len file_size (ok []) = some (ok [])
start_clusters decompressor e block_len file_size (ok (l ∷ lcis)) =
    write_clusters decompressor e block_len file_size (l ∷ lcis) (length (l ∷ lcis) + 1) [] 0

unfoldable pub decompress_with :
    (Bytes → ℕ → Option Bytes)
    → Erofs
    → Inode
    → Result Error MapHeader
    → Option (Result Error Bytes)
decompress_with decompressor e inode (err x) = some (err x)
decompress_with decompressor e inode (ok h) =
    let bits : ℕ = (e.sb.blkszbits + cluster_size_bits h) % 256 in
    start_clusters decompressor e (2 ^ (bits % 64)) (data_size inode) (
      compression_type_1 h >>= λ t. get_decompressor t >>= λ _. get_logical_cluster_indices e inode)

unfoldable pub get_compressed_data_vec :
    (Bytes → ℕ → Option Bytes) → Erofs → Inode → Option (Result Error Bytes)
get_compressed_data_vec decompressor e inode =
    decompress_with decompressor e inode (get_map_header e inode)
