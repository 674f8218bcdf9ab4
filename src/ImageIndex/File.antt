-- ===== src/ImageIndex/File.antt =====
-- `PEImageIndex::from_file` of peimage/src/index.rs: the index stands at the end of the file, before
-- its size in a u32 and a magic number in a u64.
use program_explorer.Prelude.{
  ℕ, ◌+◌, ◌-◌, ◌%◌, ◌^◌, ◌<◌, ◌≤◌, ◌≡◌, refl, sym, ◌∙◌, arith, true, false, Option, ◌++◌, length,
  length-drop, le→leb, take, drop, leb, ◌==◌, length-append, take-front, drop-front, append_assoc,
}
use program_explorer.Prelude.Bytes.{
  Bytes, to_le_bytes, from_le_bytes, length-to_le_bytes, from-to_le_bytes,
}
use program_explorer.Prelude.Result.{Result, ok, err, ◌>>=◌, ◌>>◌, ensure, ok_or}

-- The errors of kind `InvalidData` by their messages, and that of `read_exact` and `seek`.
pub data Error : Type 0 where
  too_short_for_magic no_magic too_short_for_index invalid_index : Error
  unknown_rootfs_kind duplicate_name : Error
  unexpected_eof invalid_seek : Error

abbrev pub index_json_magic : ℕ
index_json_magic = 0x1db56abd7b82da38

-- `seek(SeekFrom::End(-n))`: the bytes from there on.
unfoldable pub from_end : ℕ → Bytes → Result Error Bytes
from_end n file =
    ensure (leb n (length file)) invalid_seek >>= λ _. ok (drop (length file - n) file)

-- `read_exact` of n bytes.
unfoldable pub read_exact : ℕ → Bytes → Result Error Bytes
read_exact n bs = ensure (leb n (length bs)) unexpected_eof >>= λ _. ok (take n bs)

module _ {ℓ} {Images : Type ℓ} (from_slice : Bytes → Option Images) where
  -- Behind the test of the length. The distance of the second seek is computed in u32.
  unfoldable pub read_index : Bytes → ℕ → Result Error Images
  read_index file data_size = do
    bs ← from_end ((8 + 4 + data_size) % 2 ^ 32) file
    buf ← read_exact data_size bs
    ok_or (from_slice buf) invalid_index

  unfoldable pub check_index : Bytes → ℕ → ℕ → Result Error Images
  check_index file data_size magic = do
    ensure (magic == index_json_magic) no_magic
    ensure (leb (data_size + 8 + 4) (length file)) too_short_for_index
    read_index file data_size

  unfoldable pub from_file : Bytes → Result Error Images
  from_file file = do
    ensure (leb (8 + 4) (length file)) too_short_for_magic
    bs ← from_end (8 + 4) file
    size ← read_exact 4 bs
    magic ← read_exact 8 (drop 4 bs)
    check_index file (from_le_bytes size) (from_le_bytes magic)

-- What stands behind the index.
abbrev pub trailer : ℕ → Bytes
trailer n = to_le_bytes 4 n ++ to_le_bytes 8 index_json_magic

length-trailer : (n : ℕ) → length (trailer n) ≡ 12
length-trailer n =
    length-append (to_le_bytes 4 n) (to_le_bytes 8 index_json_magic)
    ∙ rw (length-to_le_bytes 4 n, length-to_le_bytes 8 index_json_magic) refl

from_end-append :
    (front back : Bytes) (n : ℕ) → n ≡ length back → from_end n (front ++ back) ≡ ok back
unfolding from_end
from_end-append front back n e =
    let fits : leb n (length (front ++ back)) ≡ true =
      le→leb n (length (front ++ back)) (omega (arith, length-append front back)) in
    let start : length (front ++ back) - n ≡ length front =
      omega (arith, length-append front back) in
    rw (fits, drop-front (length (front ++ back) - n) front back start) refl

read_exact-append : (xs ys : Bytes) (n : ℕ) → n ≡ length xs → read_exact n (xs ++ ys) ≡ ok xs
unfolding read_exact
read_exact-append xs ys n e =
    rw (le→leb n (length (xs ++ ys)) (omega (arith, length-append xs ys)), take-front n xs ys e)
      refl

read_exact-short : (n : ℕ) (bs : Bytes) → length bs < n → read_exact n bs ≡ err unexpected_eof
unfolding read_exact
read_exact-short n bs h = let short : leb n (length bs) ≡ false = ground arith in rw short refl

length-from_end :
    (n : ℕ) (file : Bytes) → n ≤ length file → from_end n file ≡ ok (drop (length file - n) file)
unfolding from_end
length-from_end n file h = rw (le→leb n (length file) h) refl

magic_read : read_exact 8 (to_le_bytes 8 index_json_magic) ≡ ok (to_le_bytes 8 index_json_magic)
unfolding read_exact to_le_bytes
magic_read = refl

magic_value : from_le_bytes (to_le_bytes 8 index_json_magic) ≡ index_json_magic
unfolding from_le_bytes to_le_bytes
magic_value = refl

module _ {ℓ} {Images : Type ℓ} (from_slice : Bytes → Option Images) (image json : Bytes) where
  -- A file that ends with its index.
  unfoldable pub file_of : Bytes
  file_of = image ++ (json ++ trailer (length json))

  length-file_of : length file_of ≡ length image + length json + 12
  unfolding file_of
  length-file_of = omega (
    arith,
    length-append image (json ++ trailer (length json)),
    length-append json (trailer (length json)),
    length-trailer (length json),
  )

  read_index-fits :
      length json + 12 < 2 ^ 32
      → read_index from_slice file_of (length json) ≡ ok_or (from_slice json) invalid_index
  unfolding read_index file_of
  read_index-fits h =
      rw
        (
          from_end-append image (json ++ trailer (length json)) ((8 + 4 + length json) % 2 ^ 32) (
              omega
                (arith, length-append json (trailer (length json)), length-trailer (length json))),
          read_exact-append json (trailer (length json)) (length json) refl,
        )
        refl

  read_index-wraps :
      length json < 2 ^ 32
      → 2 ^ 32 ≤ length json + 12
      → read_index from_slice file_of (length json) ≡ err unexpected_eof
  unfolding read_index
  read_index-wraps k h =
      rw
        (
          length-from_end ((8 + 4 + length json) % 2 ^ 32) file_of (omega (arith, length-file_of)),
          read_exact-short (length json)
              (drop (length file_of - (8 + 4 + length json) % 2 ^ 32) file_of)
              (omega (
                arith,
                length-file_of,
                length-drop (length file_of - (8 + 4 + length json) % 2 ^ 32) file_of,
              )),
        )
        refl

  at_end : from_end 12 file_of ≡ ok (trailer (length json))
  unfolding file_of
  at_end = rw (sym (append_assoc image json (trailer (length json)))) (
      from_end-append (image ++ json) (trailer (length json)) 12
        (sym (length-trailer (length json))))

  from_file-read_index :
      length json < 2 ^ 32
      → from_file from_slice file_of ≡ read_index from_slice file_of (length json)
  unfolding from_file check_index
  from_file-read_index h =
      rw
        (
          le→leb 12 (length file_of) (omega (arith, length-file_of)),
          at_end,
          read_exact-append (to_le_bytes 4 (length json)) (to_le_bytes 8 index_json_magic) 4
              (sym (length-to_le_bytes 4 (length json))),
          drop-front 4 (to_le_bytes 4 (length json)) (to_le_bytes 8 index_json_magic)
              (sym (length-to_le_bytes 4 (length json))),
          magic_read,
          from-to_le_bytes (length json) h,
          magic_value,
          le→leb (length json + 8 + 4) (length file_of) (omega (arith, length-file_of)),
        )
        refl

  -- A file that ends with an index, its size and the magic number is read as what the index decodes
  -- to, or refused if it does not decode, as long as the size and the trailer fit a u32 together; if
  -- only the size does, the distance from the end wraps round and the file is refused as too short.
  pub from_file-file_of :
      (length json + 12 < 2 ^ 32
        → from_file from_slice file_of ≡ ok_or (from_slice json) invalid_index)
      × (length json < 2 ^ 32
          → 2 ^ 32 ≤ length json + 12
          → from_file from_slice file_of ≡ err unexpected_eof)
  from_file-file_of = (
    λ h. from_file-read_index (omega arith) ∙ read_index-fits h,
    λ k h. from_file-read_index k ∙ read_index-wraps k h,
  )
