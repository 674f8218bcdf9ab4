-- ===== src/Peinit/Tests.antt =====
-- The theorems on the io file at concrete files.
use program_explorer.Prelude.{
  ◌+◌, ◌-◌, ◌^◌, ◌<◌, ◌≤◌, ◌≡◌, refl, arith, false, none, some, Option, [], ◌++◌, length,
}
use program_explorer.Prelude.Bytes.{Bytes, codes, to_le_bytes}
use program_explorer.Prelude.Result.{ok}
use program_explorer.Peinit.Types.{Config, Response, panic, json_v1, erofs}
use program_explorer.Peinit.IoFile.{
  write_io_file_config, read_io_file_config, read_io_file_response_archive_bytes,
}
use program_explorer.Peinit.IoFile.MemFile.{MemFile, behind, reader, write_all}
use program_explorer.Peinit.IoFile.RoundTrip.{
  sizes, read_io_file_config-write, read_io_file_response_archive_bytes-sizes,
}

abbrev config : Config
config = record {
  oci_runtime_config = codes "{}";
  timeout = record { secs = 1; nanos = 0 };
  stdin = none;
  strace = false;
  crun_debug = false;
  rootfs_dir = none;
  rootfs_kind = erofs;
  response_format = json_v1;
  kernel_inspect = false;
  manifest_digest = codes "sha256:00";
}

abbrev config_bytes : Bytes
config_bytes = codes "config"

-- An encoding of that configuration alone.
abbrev encode_to_vec : Config → Option Bytes
encode_to_vec c = some config_bytes

abbrev decode_from_slice : Bytes → Option Config
decode_from_slice bs = some config

abbrev old : Bytes
old = codes "old contents of the io file"

read_io_file_config-write_example :
    (file : MemFile) × (write_io_file_config write_all encode_to_vec (behind [] old) config 7
      ≡ ok file)
    × (file.at ≡ 8 + length config_bytes)
    × (read_io_file_config reader decode_from_slice (record file { at = 0 })
        ≡ ok ((7, config), file))
read_io_file_config-write_example =
    read_io_file_config-write encode_to_vec decode_from_slice config config_bytes old 7 refl refl
      (omega arith) (omega arith)

abbrev to_vec : Response → Option Bytes
to_vec r = some (codes "response")

abbrev from_slice : Bytes → Option Response
from_slice bs = some (panic [])

abbrev response_file : MemFile
response_file = record {
  bytes = sizes 2 3 ++ ((codes "abc" ++ codes "de") ++ codes "rest");
  at = 5;
}

read_io_file_response_archive_bytes-sizes_example :
    ((4 + 3 + 2 < 2 ^ 32)
      → read_io_file_response_archive_bytes reader response_file
        ≡ ok (to_le_bytes 4 3 ++ codes "abcde", behind (sizes 2 3 ++ codes "abcde") (codes "rest")))
    × ((xs ys : Bytes)
        → xs ++ ys ≡ codes "abcde"
        → 2 ^ 32 ≤ 4 + 3 + 2
        → 4 + 3 + 2 < 2 ^ 33
        → length xs ≡ 4 + 3 + 2 - 2 ^ 32 - 4
        → read_io_file_response_archive_bytes reader response_file
          ≡ ok (to_le_bytes 4 3 ++ xs, behind (sizes 2 3 ++ xs) (ys ++ codes "rest")))
read_io_file_response_archive_bytes-sizes_example =
    read_io_file_response_archive_bytes-sizes (codes "abc") (codes "de") (codes "rest") 5
      (omega arith) (omega arith)
