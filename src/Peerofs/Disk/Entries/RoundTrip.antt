-- ===== src/Peerofs/Disk/Entries/RoundTrip.antt =====
-- An entry that is written and read again, and slices of bytes that are put together.
use program_explorer.Prelude.{
  ℕ, ◌+◌, ◌-◌, ◌^◌, ◌<◌, ◌≡◌, refl, sym, arith, false, ◌||◌, ◌++◌, length, ltb, length-append,
  take-front, drop-front,
}
use program_explorer.Prelude.Bytes.{Bytes, to_le_bytes, from-to_le_bytes-bound}
use program_explorer.Prelude.Result.{ok}
use program_explorer.Peerofs.Disk.{
  get_from, get_range, DirentFileType, file_type_number, file_type_from, unknown, regular_file,
  directory, character_device, block_device, fifo, socket, symlink,
}
use program_explorer.Peerofs.Disk.Structs.RoundTrip.{ref_from_prefix-append}
use program_explorer.Peerofs.Disk.Entries.{
  Dirent, dirent_bytes, read_dirent, dirent_size, dirent_from_prefix,
}

pub get_from-append : (n : ℕ) (a b : Bytes) → n ≡ length a → get_from (a ++ b) n ≡ ok b
unfolding get_from
get_from-append n a b e =
    let h : ltb (length (a ++ b)) n ≡ false = ground (arith, length-append a b) in
    rw (h, drop-front n a b e) refl

pub get_range-append :
    (s t : ℕ) (a m b : Bytes)
    → s ≡ length a
    → t ≡ length a + length m
    → get_range (a ++ (m ++ b)) s t ≡ ok m
unfolding get_range
get_range-append s t a m b e f =
    let h : ltb t s || ltb (length (a ++ (m ++ b))) t ≡ false =
      ground (arith, length-append a (m ++ b), length-append m b) in
    let g : t - s ≡ length m = omega arith in
    rw (h, drop-front s a (m ++ b) e, take-front (t - s) m b g) refl

pub length-dirent_bytes : (d : Dirent) → length (dirent_bytes d) ≡ dirent_size
unfolding dirent_bytes to_le_bytes
length-dirent_bytes d = refl

pub record IsDirent (d : Dirent) : Type 0 where
  pub disk_id_lt : d.disk_id < 2 ^ 64
  pub name_offset_lt : d.name_offset < 2 ^ 16
  pub file_type_lt : d.file_type < 2 ^ 8

read-dirent_bytes : (d : Dirent) → IsDirent d → read_dirent (dirent_bytes d) ≡ d
unfolding read_dirent dirent_bytes to_le_bytes
read-dirent_bytes d h =
    let a = from-to_le_bytes-bound 8 d.disk_id h.disk_id_lt in
    let b = from-to_le_bytes-bound 2 d.name_offset h.name_offset_lt in
    let c = from-to_le_bytes-bound 1 d.file_type h.file_type_lt in rw (a, b, c) refl

pub dirent_from_prefix-append :
    (d : Dirent) (rest : Bytes) → IsDirent d → dirent_from_prefix (dirent_bytes d ++ rest) ≡ ok d
unfolding dirent_from_prefix
dirent_from_prefix-append d rest h =
    rw
      (
        ref_from_prefix-append dirent_size (dirent_bytes d) rest (sym (length-dirent_bytes d)),
        read-dirent_bytes d h,
      )
      refl

pub file_type_from-number : (t : DirentFileType) → file_type_from (file_type_number t) ≡ ok t
unfolding file_type_from file_type_number
file_type_from-number unknown = refl
file_type_from-number regular_file = refl
file_type_from-number directory = refl
file_type_from-number character_device = refl
file_type_from-number block_device = refl
file_type_from-number fifo = refl
file_type_from-number socket = refl
file_type_from-number symlink = refl

pub file_type_number-lt : (t : DirentFileType) → file_type_number t < 2 ^ 8
unfolding file_type_number
file_type_number-lt t = ground arith
