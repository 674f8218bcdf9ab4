-- ===== src/Peerofs/Blocks.antt =====
-- The arithmetic of blocks and inode numbers of peerofs/src/build.rs, for the block size that
-- `Builder::new` sets, 2^12 bytes.
use program_explorer.Prelude.{
  ℕ, ◌+◌, ◌-◌, ◌*◌, ◌/◌, ◌%◌, ◌^◌, ◌<◌, ◌≤◌, ◌≡◌, ◌⊎◌, refl, arith, true, false, Option, none, some,
  ◌==◌, ltb, if◌then◌else◌, inl, inr, lt→ltb, Bool-cases, not,
}
use program_explorer.Prelude.Result.{Result, ok, err, ◌>>=◌, ◌>>◌, ensure, ok_or}

pub data Error : Type 0 where
  no_meta_block addr_less_than_meta_block addr_not_aligned disk_id_too_big : Error

abbrev pub inode_alignment : ℕ
inode_alignment = 32

abbrev pub default_block_size_bits : ℕ
default_block_size_bits = 12

abbrev pub block_size : ℕ → ℕ
block_size bits = 2 ^ bits

abbrev pub block_no : ℕ → ℕ → ℕ
block_no bits addr = addr / block_size bits

-- The product in u64.
abbrev pub block_addr : ℕ → ℕ → ℕ
block_addr bits block = (block * block_size bits) % 2 ^ 64

-- The number of blocks, the bytes that go into them, and those of the tail.
unfoldable pub size_tail_len : ℕ → ℕ → ℕ × ℕ × ℕ
size_tail_len len bits =
    let n_blocks : ℕ = len / block_size bits in
    let tail_len : ℕ = len % block_size bits in
    if ltb (block_size bits / 2) tail_len
    then (n_blocks + 1, len, 0)
    else (n_blocks, n_blocks * block_size bits, tail_len)

-- `zero_fill`: the number of zeros that are written.
unfoldable pub zero_fill : ℕ → ℕ → ℕ
zero_fill written alignment =
    let rem : ℕ = written % alignment in if not (rem == 0) then alignment - rem else 0

-- Behind the address of the metadata.
unfoldable pub disk_id_from : ℕ → ℕ → Result Error ℕ
disk_id_from meta_addr addr = do
  ensure (not (ltb addr meta_addr)) addr_less_than_meta_block
  ensure ((addr - meta_addr) % inode_alignment == 0) addr_not_aligned
  ensure (ltb ((addr - meta_addr) / inode_alignment) (2 ^ 32)) disk_id_too_big
  ok ((addr - meta_addr) / inode_alignment)

unfoldable pub addr_to_disk_id : ℕ → Option ℕ → ℕ → Result Error ℕ
addr_to_disk_id bits meta_block addr = do
  block ← ok_or meta_block no_meta_block
  disk_id_from (block_addr bits block) addr

-- How the bytes of a file are divided: those in blocks and those of the tail are all of them, the tail
-- is at most half a block, the blocks have room for what goes into them, and less than half a block
-- of it is not used; and with a tail the blocks are full.
pub size_tail_len-divides :
    (len : ℕ)
    → let r = size_tail_len len default_block_size_bits in
      (r.1 + r.2 ≡ len)
      × (r.2 ≤ 2 ^ 12 / 2)
      × (r.1 ≤ r.0 * 2 ^ 12)
      × (r.0 * 2 ^ 12 < r.1 + 2 ^ 12 / 2)
      × ((r.2 ≡ 0) ⊎ (r.1 ≡ r.0 * 2 ^ 12))
unfolding size_tail_len
size_tail_len-divides len = elim (Bool-cases (ltb (2 ^ 12 / 2) (len % 2 ^ 12))) [
  | inl e ↦ rw e (omega arith, omega arith, ground arith, ground arith, inl refl)
  | inr e ↦ rw e (omega arith, ground arith, omega arith, omega arith, inr refl)
]

-- Behind the zeros the number of bytes is a multiple of the alignment, of a block or of an inode, and
-- there are fewer of them than the alignment.
pub zero_fill-aligned :
    (written : ℕ)
    → ((written + zero_fill written (2 ^ 12)) % 2 ^ 12 ≡ 0)
      × (zero_fill written (2 ^ 12) < 2 ^ 12)
      × ((written + zero_fill written inode_alignment) % inode_alignment ≡ 0)
      × (zero_fill written inode_alignment < inode_alignment)
unfolding zero_fill
zero_fill-aligned written = (ground arith, ground arith, ground arith, ground arith)

disk_id_from-id :
    (meta id : ℕ) → id < 2 ^ 32 → disk_id_from meta (meta + id * inode_alignment) ≡ ok id
unfolding disk_id_from
disk_id_from-id meta id h =
    let a : ltb (meta + id * inode_alignment) meta ≡ false = ground arith in
    let b : ((meta + id * inode_alignment - meta) % inode_alignment == 0) ≡ true = ground arith in
    let c : (meta + id * inode_alignment - meta) / inode_alignment ≡ id = omega arith in
    rw (a, b, c, lt→ltb id (2 ^ 32) h) refl

disk_id_from-address :
    (meta id addr : ℕ) → disk_id_from meta addr ≡ ok id → addr ≡ meta + id * inode_alignment
unfolding disk_id_from
disk_id_from-address meta id addr e = ground arith

-- An inode number stands for one address: for an address that is a multiple of the alignment behind
-- the metadata's first block the number is given, and it leads back to the address; all other
-- addresses are refused, and so is every one while the metadata has no block.
pub addr_to_disk_id-address :
    (block id addr : ℕ)
    → block < 2 ^ 52
    → (id < 2 ^ 32
        → addr_to_disk_id default_block_size_bits
            (some block)
            (block * 2 ^ 12 + id * inode_alignment)
          ≡ ok id)
      × (addr_to_disk_id default_block_size_bits (some block) addr ≡ ok id
          → addr ≡ block * 2 ^ 12 + id * inode_alignment)
      × (addr_to_disk_id default_block_size_bits none addr ≡ err no_meta_block)
unfolding addr_to_disk_id
addr_to_disk_id-address block id addr h =
    let fits : block_addr default_block_size_bits block ≡ block * 2 ^ 12 = omega arith in
    (
      λ k. rw fits (disk_id_from-id (block * 2 ^ 12) id k),
      λ e. disk_id_from-address (block * 2 ^ 12) id addr (rw fits at e),
      refl,
    )
