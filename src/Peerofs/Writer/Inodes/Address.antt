-- ===== src/Peerofs/Writer/Inodes/Address.antt =====
-- Where an inode is written, with which bytes, and that its number leads there.
use program_explorer.Prelude.{
  ℕ, ◌+◌, ◌*◌, ◌%◌, ◌^◌, ◌<◌, ◌≤◌, ◌≡◌, ◌≢◌, ◌⊎◌, Option, none, some, List, ◌++◌, length,
}
use program_explorer.Prelude.Bytes.{Bytes}
use program_explorer.Peerofs.Blocks.{inode_alignment}
use program_explorer.Peerofs.Disk.Structs.{InodeExtended, inode_extended_bytes, inode_extended_size}
use program_explorer.Peerofs.Disk.Attributes.{XattrEntry, xattr_count, xattr_count_to_len}
use program_explorer.Peerofs.Writer.Entries.{Writer}
use program_explorer.Peerofs.Writer.Inodes.{InodesState, entries_of, xattrs_bytes, tail_bytes}

-- A writer that appends: its position is the number of bytes that were written. The writer of inodes
-- does not seek.
abbrev pub appending : Writer Bytes
appending = record { write_all = λ w b. some (w ++ b); seek = λ w n. none }

-- The bytes of an inode with its attributes and its tail.
abbrev pub total_len : List (ℕ × XattrEntry) → Option Bytes → ℕ
total_len entries tail =
    inode_extended_size
    + xattr_count_to_len (xattr_count (entries_of entries)).xattr_count
    + length (tail_bytes tail)

-- The state between two inodes: the metadata starts at a block, the writer stands where the next inode
-- goes, which is aligned and behind the start of the metadata.
pub record IsBetween (block : ℕ) (s : InodesState Bytes) : Type 0 where
  pub meta_block_eq : s.meta_block ≡ some block
  pub writer_eq : length s.writer ≡ s.inode_addr
  pub aligned : s.inode_addr % inode_alignment ≡ 0
  pub in_meta : block * 2 ^ 12 ≤ s.inode_addr

-- Moved to a block in which there is room.
record IsMoved (block : ℕ) (len : ℕ) (s r : InodesState Bytes) : Type 0 where
  between : IsBetween block r
  forward : s.inode_addr ≤ r.inode_addr
  near : r.inode_addr ≤ s.inode_addr + 2 ^ 12
  room : r.inode_addr % 2 ^ 12 + len ≤ 2 ^ 12
  gap : Bytes
  gap_eq : r.writer ≡ s.writer ++ gap

-- What is known behind an inode of the given bytes: they stand where its number leads.
pub record IsWritten (block : ℕ) (bytes : Bytes) (s : InodesState Bytes) (r : InodesState Bytes × ℕ)
    : Type 0 where
  pub between : IsBetween block r.0
  pub gap : Bytes
  pub padding : Bytes
  pub written : r.0.writer ≡ (s.writer ++ gap) ++ (bytes ++ padding)
  pub at : length (s.writer ++ gap) ≡ block * 2 ^ 12 + r.1 * inode_alignment
  pub near : r.0.inode_addr < s.inode_addr + 2 ^ 12 + length bytes + inode_alignment
  pub in_block : (block * 2 ^ 12 + r.1 * inode_alignment) % 2 ^ 12 + length bytes ≤ 2 ^ 12

-- An inode that fits a block, and whose number fits.
pub record Fits (block : ℕ) (s : InodesState Bytes) (entries : List (ℕ × XattrEntry))
    (tail : Option Bytes) : Type 0 where
  pub block_lt : block < 2 ^ 32
  pub addr_lt : s.inode_addr + 2 ^ 12 < block * 2 ^ 12 + 2 ^ 37
  pub len_le : total_len entries tail ≤ 2 ^ 12
  pub not_exactly : (total_len entries tail ≢ 2 ^ 12) ⊎ (s.inode_addr % 2 ^ 12 ≢ 0)

-- The bytes of an inode: those of its structure with the count of its attributes, of the attributes,
-- and of the tail, in this order.
abbrev pub inode_bytes :
    InodeExtended → Option Bytes → List (Bytes × Bytes) → List (ℕ × XattrEntry) → Bytes
inode_bytes inode tail xattrs entries =
    inode_extended_bytes
      (record inode { xattr_count = (xattr_count (entries_of entries)).xattr_count })
    ++ (xattrs_bytes entries xattrs ++ tail_bytes tail)
