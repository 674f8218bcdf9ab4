-- ===== src/Peerofs/Writer/Inodes/ReadBack.antt =====
-- An inode that was written is what the reader finds under its number, with its tail.
use program_explorer.Prelude.{
  ℕ, ◌+◌, ◌*◌, ◌/◌, ◌%◌, ◌^◌, ◌<◌, ◌≡◌, refl, sym, ap, ◌∙◌, arith, ◌++◌, length, ltb, append_assoc,
  length-append, Bool-cases, inl, inr,
}
use program_explorer.Prelude.Bytes.{Bytes}
use program_explorer.Prelude.Result.{ok, ◌>>=◌}
use program_explorer.Peerofs.Blocks.{size_tail_len, default_block_size_bits}
use program_explorer.Peerofs.Disk.{flat_inline, get_from, get_range, compute_block_tail_len}
use program_explorer.Peerofs.Disk.Structs.{
  InodeExtended, extended, extended_type, format_layout_of, get_layout, new_inode,
  inode_extended_bytes,
}
use program_explorer.Peerofs.Disk.Structs.RoundTrip.{
  IsInodeExtended, new_inode-inode_extended_bytes, length-inode_extended_bytes,
  get_layout-format_layout_of,
}
use program_explorer.Peerofs.Disk.Entries.RoundTrip.{get_from-append, get_range-append}
use program_explorer.Peerofs.Disk.Attributes.{xattr_count_to_len}
use program_explorer.Peerofs.Disk.Image.{
  Erofs, block_size, raw_inode_offset, inode_end, get_inode, get_data, get_data_as, get_inline,
  get_block, wrap,
}

-- How the builder divides the bytes of a file with a tail is how the reader divides them.
pub compute_block_tail_len-size_tail_len :
    (len : ℕ)
    → let r = size_tail_len len default_block_size_bits in
      (0 < r.2 → compute_block_tail_len (2 ^ 12) len ≡ (r.1, r.2)) × (r.2 ≡ 0 → r.1 ≡ len)
unfolding size_tail_len compute_block_tail_len
compute_block_tail_len-size_tail_len len = elim (Bool-cases (ltb (2 ^ 12 / 2) (len % 2 ^ 12))) [
  | inl e ↦ rw e (λ h. absurd (omega (arith, h)), λ h. refl)
  | inr e ↦ rw e (λ h. ap (λ t. (len / 2 ^ 12 * 2 ^ 12, t)) (omega arith), λ h. omega (arith, h))
]

-- The image holds an inode with its attributes and its tail, at the address of its number.
pub record Holds (e : Erofs) (id : ℕ) (inode : InodeExtended) (xattrs tail : Bytes) : Type 0 where
  pub before : Bytes
  pub rest : Bytes
  pub bytes_eq : e.bytes ≡ before ++ (inode_extended_bytes inode ++ (xattrs ++ (tail ++ rest)))
  pub at : raw_inode_offset e id ≡ length before
  pub xattrs_len : length xattrs ≡ xattr_count_to_len inode.xattr_count
  pub no_wrap : length e.bytes < 2 ^ 64

get_inode-Holds :
    (e : Erofs) (id : ℕ) (inode : InodeExtended) (xattrs tail : Bytes)
    → Holds e id inode xattrs tail
    → IsInodeExtended inode
    → inode.format_layout ≡ format_layout_of extended_type flat_inline
    → get_inode e id ≡ ok (extended id inode)
unfolding get_inode
get_inode-Holds e id inode xattrs tail h i l =
    let found =
      get_from-append (raw_inode_offset e id) h.before
        (inode_extended_bytes inode ++ (xattrs ++ (tail ++ h.rest))) h.at in
    ap (λ b. get_from b (raw_inode_offset e id) >>= new_inode id) h.bytes_eq
    ∙ rw
        (
          found,
          new_inode-inode_extended_bytes id inode flat_inline (xattrs ++ (tail ++ h.rest)) i l,
        )
        refl

get_range-tail :
    (e : Erofs) (id : ℕ) (inode : InodeExtended) (xattrs tail : Bytes)
    → Holds e id inode xattrs tail
    → let start = inode_end e (extended id inode) in
      get_range e.bytes start (wrap (start + length tail)) ≡ ok tail
unfolding inode_end
get_range-tail e id inode xattrs tail h =
    let bs : Bytes = inode_extended_bytes inode in
    let front : Bytes = (h.before ++ bs) ++ xattrs in
    let eq : e.bytes ≡ front ++ (tail ++ h.rest) =
      h.bytes_eq
      ∙ sym (append_assoc h.before bs (xattrs ++ (tail ++ h.rest)))
      ∙ sym (append_assoc (h.before ++ bs) xattrs (tail ++ h.rest)) in
    let a = length-append (h.before ++ bs) xattrs in
    let b = length-append h.before bs in
    let c = length-inode_extended_bytes inode in
    let d = ap length eq in
    let f = length-append front (tail ++ h.rest) in
    let g = length-append tail h.rest in
    let o : length (front ++ (tail ++ h.rest)) < 2 ^ 64 = omega (arith, d, h.no_wrap) in
    let start : ℕ = inode_end e (extended id inode) in
    ap (λ b. get_range b start (wrap (start + length tail))) eq
    ∙ get_range-append start (wrap (start + length tail)) front tail h.rest
        (omega (arith, a, b, c, f, g, o, h.at, h.xattrs_len))
        (omega (arith, a, b, c, f, g, o, h.at, h.xattrs_len))

-- A file with a tail goes out and comes back: an image that holds its inode (made for such a file, with
-- fields that fit their widths) with the attributes and the tail at the address of its number, and that
-- has its whole blocks where the inode says, gives the inode by the number, and by the inode the bytes of
-- the blocks and of the tail, if these are divided as the builder divides the size.
pub get_data-Holds :
    (e : Erofs) (id : ℕ) (inode : InodeExtended) (xattrs tail block : Bytes)
    → Holds e id inode xattrs tail
    → IsInodeExtended inode
    → inode.format_layout ≡ format_layout_of extended_type flat_inline
    → block_size e ≡ 2 ^ 12
    → 0 < length tail
    → (size_tail_len inode.size default_block_size_bits).2 ≡ length tail
    → get_block e inode.info (size_tail_len inode.size default_block_size_bits).1 ≡ ok block
    → (get_inode e id ≡ ok (extended id inode))
      × (get_data e (extended id inode) ≡ ok (block, tail))
unfolding get_data get_data_as get_inline
get_data-Holds e id inode xattrs tail block h i l bs some_tail r b =
    let lay = ap get_layout l ∙ get_layout-format_layout_of extended_type flat_inline in
    let len = size_tail_len inode.size default_block_size_bits in
    let lens : compute_block_tail_len (block_size e) inode.size ≡ (len.1, length tail) =
      ap (λ n. compute_block_tail_len n inode.size) bs
      ∙ (compute_block_tail_len-size_tail_len inode.size).0 (omega (arith, r, some_tail))
      ∙ ap (λ t. (len.1, t)) r in
    (
      get_inode-Holds e id inode xattrs tail h i l,
      rw (lay, lens, get_range-tail e id inode xattrs tail h, b) refl,
    )
