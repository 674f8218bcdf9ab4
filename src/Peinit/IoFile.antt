-- ===== src/Peinit/IoFile.antt =====
-- The io file of peinit/src/lib.rs: a configuration goes into the guest, a response comes out, each
-- behind two sizes and before an archive. The file is any reader, writer and seeker; the encodings
-- (the crates bincode and serde_json) are parameters.
pub mod MemFile
pub mod RoundTrip
use program_explorer.Prelude.{
  ℕ, zero, suc, ◌+◌, ◌-◌, ◌*◌, ◌%◌, ◌^◌, Bool, Option, none, some, List, [], ◌∷◌, ◌++◌, length,
  take, drop, ltb,
}
use program_explorer.Prelude.Bytes.{Bytes, to_le_bytes, from_le_bytes}
use program_explorer.Prelude.Result.{Result, ok, err, ◌>>=◌, ◌>>◌, ensure, ok_or, map_err}
use program_explorer.Peinit.Types.{Config, Response}

pub data Error : Type 0 where
  io ser : Error

-- How a call ends early: by an error that it returns, or by a panic (`unwrap`).
pub data Failure : Type 0 where
  returned : Error → Failure
  panicked : Failure

-- `write_all`, with any error of the writer.
abbrev pub Write : Type 0 → Type 0
Write W = W → Bytes → Option W

-- `read_exact` and `seek(SeekFrom::Start(..))`.
pub record Read (F : Type 0) : Type 0 where
  pub read_exact : F → ℕ → Option (Bytes × F)
  pub seek : F → ℕ → Option F

-- `.map_err(|_| Error::Io)` and `.map_err(|_| Error::Ser)`
abbrev pub io_err : {A : Type 0} → Option A → Result Failure A
io_err o = ok_or o (returned io)

abbrev pub ser_err : {A : Type 0} → Option A → Result Failure A
ser_err o = ok_or o (returned ser)

-- `try_into().unwrap()` into a u32.
unfoldable pub unwrap_u32 : ℕ → Result Failure ℕ
unwrap_u32 n = ensure (ltb n (2 ^ 32)) panicked >>= λ _. ok n

-- `?` on a writer's result.
abbrev pub and_then : {A B : Type 0} → Option A → (A → Option B) → Option B
and_then none k = none
and_then (some a) k = k a

module _ {W : Type 0} (write_all : Write W) where
  abbrev pub write_u32_le_slice : W → List ℕ → Option W
  write_u32_le_slice file [] = some file
  write_u32_le_slice file (x ∷ xs) =
      and_then (write_all file (to_le_bytes 4 x)) (λ file'. write_u32_le_slice file' xs)

  -- The two sizes and the message, which both writers write.
  abbrev pub write_sized : W → ℕ → Bytes → Result Failure ℕ → Result Failure W
  write_sized file archive_size message (err e) = err e
  write_sized file archive_size message (ok size) = do
    file1 ← io_err (write_u32_le_slice file (archive_size ∷ size ∷ []))
    io_err (write_all file1 message)

  unfoldable pub write_message : W → ℕ → Bytes → Result Failure W
  write_message file archive_size message =
      write_sized file archive_size message (unwrap_u32 (length message))

  unfoldable pub write_io_file_config : (Config → Option Bytes) → W → Config → ℕ → Result Failure W
  write_io_file_config encode_to_vec file config archive_size = do
    config_bytes ← ser_err (encode_to_vec config)
    write_message file archive_size config_bytes

  unfoldable pub write_io_file_response :
      (Response → Option Bytes) → W → Response → Result Failure W
  write_io_file_response to_vec file response = do
    response_bytes ← ser_err (to_vec response)
    write_message file 0 response_bytes

module _ {F : Type 0} (r : Read F) where
  abbrev pub read_u32_le_pair : F → Result Failure ((ℕ × ℕ) × F)
  read_u32_le_pair file = do
    e ← io_err (r.read_exact file 8)
    ok ((from_le_bytes (take 4 e.0), from_le_bytes (drop 4 e.0)), e.1)

  unfoldable pub read_io_file_config :
      (Bytes → Option Config) → F → Result Failure ((ℕ × Config) × F)
  read_io_file_config decode_from_slice file = do
    p ← read_u32_le_pair file
    b ← io_err (r.read_exact p.1 (p.0).1)
    config ← ser_err (decode_from_slice b.0)
    ok (((p.0).0, config), b.1)

  unfoldable pub read_io_file_response_bytes : F → Result Failure ((ℕ × Bytes) × F)
  read_io_file_response_bytes file = do
    file0 ← io_err (r.seek file 0)
    p ← read_u32_le_pair file0
    b ← io_err (r.read_exact p.1 (p.0).1)
    ok (((p.0).0, b.0), b.1)

  -- The length of the vector is computed in u32. A vector that is shorter than four bytes grows when
  -- the size is written to it.
  unfoldable pub read_io_file_response_archive_bytes : F → Result Failure (Bytes × F)
  read_io_file_response_archive_bytes file = do
    file0 ← io_err (r.seek file 0)
    p ← read_u32_le_pair file0
    b ← io_err (r.read_exact p.1 ((4 + (p.0).1 + (p.0).0) % 2 ^ 32 - 4))
    ok (to_le_bytes 4 (p.0).1 ++ b.0, b.1)

  unfoldable pub read_io_file_response :
      (Bytes → Option Response) → F → Result Failure ((ℕ × Response) × F)
  read_io_file_response from_slice file = do
    p ← read_io_file_response_bytes file
    response ← ser_err (from_slice (p.0).1)
    ok (((p.0).0, response), p.1)
