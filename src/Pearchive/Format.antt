-- ===== src/Pearchive/Format.antt =====
-- The tags, the errors and the two readers of pearchive/src/lib.rs.
pub mod Names
use program_explorer.Prelude.{
  ℕ, zero, suc, Option, none, some, [], ◌∷◌, ◌++◌, leb, ◌==◌, if◌then◌else◌, length, take, drop,
}
use program_explorer.Prelude.Result.{Result, ok, err, ◌>>=◌, ◌>>◌, ensure}
use program_explorer.Prelude.Bytes.{Bytes, from_le_bytes}

pub data Error : Type 0 where
  create : Error
  open_at : ℕ → Error
  getdents dir_too_deep : Error
  mkdir_at : ℕ → Error
  fstat on_file on_dir on_pop write : Error
  send_file : ℕ → Error
  flush bad_name bad_size empty_stack bad_tag archive_truncated : Error
  chdir chroot unshare mmap stack_empty bad_cstr size_underflow : Error

pub data ArchiveFormat1Tag : Type 0 where
  file dir pop : ArchiveFormat1Tag

-- `tag as u8`
unfoldable pub tag_byte : ArchiveFormat1Tag → ℕ
tag_byte file = 1
tag_byte dir = 2
tag_byte pop = 3

unfoldable pub tag_try_from : ℕ → Option ArchiveFormat1Tag
tag_try_from x =
    if x == 1 then some file else if x == 2 then some dir else if x == 3 then some pop else none

abbrev pub max_dir_depth : ℕ
max_dir_depth = 32

abbrev pub max_name_len : ℕ
max_name_len = 255

-- Both readers return what they read and the input behind it.
unfoldable pub read_le_u32 : Bytes → Result Error (ℕ × Bytes)
read_le_u32 input = do
  ensure (leb 4 (length input)) bad_size
  ok (from_le_bytes (take 4 input), drop 4 input)

-- `for i in 1..min(input.len(), MAX_NAME_LEN + 1)`: `n` rounds are left, `seen` holds the bytes
-- before position `i`, and the list is the input from there on.
unfoldable pub find_nul : ℕ → Bytes → Bytes → Result Error (Bytes × Bytes)
find_nul zero seen rest = err bad_name
find_nul (suc n) seen [] = err bad_name
find_nul (suc n) seen (b ∷ rest) =
    let more = find_nul n (seen ++ b ∷ []) rest in if b == 0 then ok (seen, rest) else more

-- The name comes without its terminator, as `to_bytes` gives it.
unfoldable pub read_cstr : Bytes → Result Error (Bytes × Bytes)
unfolding find_nul
read_cstr [] = err bad_name
read_cstr (b ∷ []) = err bad_name
read_cstr (b ∷ c ∷ rest) = find_nul max_name_len (b ∷ []) (c ∷ rest)
