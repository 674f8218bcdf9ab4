-- ===== src/Pearchive/Tests.antt =====
-- Concrete archives, and the theorems at concrete inputs.
use program_explorer.Prelude.{
  ℕ, ◌≤◌, ◌<◌, ◌≡◌, ◌≢◌, ◌↔◌, refl, arith, none, some, List, [], ◌∷◌, ◌++◌, length, leb,
  if◌then◌else◌,
}
use program_explorer.Prelude.Result.{Result, ok, err, ◌>>=◌}
use program_explorer.Prelude.Bytes.{Bytes, codes, to_le_bytes, from_le_bytes, bytes_eq}
use program_explorer.Pearchive.Format.{
  archive_truncated, dir_too_deep, on_dir, tag_try_from, read_cstr, read_le_u32, tag_byte, flush,
}
use program_explorer.Pearchive.Format.Names.{IsCstr, read_cstr_iff}
use program_explorer.PathBuf
use program_explorer.PathBuf.{join_slash}
use program_explorer.PathBuf.Plain.{pop-join}
use program_explorer.Pearchive.Pack.{apply_all, new}
use program_explorer.Pearchive.Unpack.{
  FileMap, insert, hashmap_on_file, into_hashmap, unpack_to_hashmap, unpack_visitor, read_file,
}
use program_explorer.Pearchive.Unpack.Loop.{unpack_visitor-ne-none}
use program_explorer.Pearchive.UnpackDir.{Kernel, and_then, mkdirat, unpack_to_dir}
use program_explorer.Pearchive.UnpackDir.Total.{unpack_to_dir-ne-none}
use program_explorer.Pearchive.UnpackDir.Tree.{build_then, unpack_to_dir-encode}
use program_explorer.Pearchive.UnpackDir.Truncated.{unclosed_disagree}
use program_explorer.Pearchive.Walk.{
  Dirents, end, regular, directory, other, pack_dir_to_writer, sendfile_all, is_dot, Output,
  returned, visit_dirc_rec, fs_on_file, put, flush_and_send,
}
use program_explorer.Pearchive.Walk.Sendfile.{MakesProgress, sendfile_all-shrunk}
use program_explorer.Pearchive.Walk.Calls.{IsWritable}
use program_explorer.Pearchive.Walk.Tree.{forest, IsReadable, pack_dir_to_writer-encode}
use program_explorer.Pearchive.BufWriter
use program_explorer.Pearchive.BufWriter.{write_all, flush_buf, flush_buf_of}
use program_explorer.Pearchive.Forest.{
  Forest, empty, file, dir, calls, encode, listing, height, IsName, IsNamed, IsSized,
}
use program_explorer.Pearchive.Forest.Pack.{pack-encode}
use program_explorer.Pearchive.Forest.Unpack.{feed, unpack_visitor-encode}
use program_explorer.Pearchive.Forest.RoundTrip.{lookup, last_at, unpack-pack}

abbrev name1 : Bytes
name1 = 0x66 ∷ 0x31 ∷ []

abbrev name2 : Bytes
name2 = 0x64 ∷ []

abbrev bytes1 : Bytes
bytes1 = 7 ∷ 0 ∷ 9 ∷ []

-- The file f1, and a directory d with a file f1.
abbrev small : Forest
small = file name1 bytes1 (dir name2 (file name1 (5 ∷ []) empty) empty)

name1-IsName : IsName name1
name1-IsName = record {
  plain = record { not_empty = λ e. cc; not_dot = λ e. ground arith; no_slash = omega arith };
  no_nul = omega arith;
  short = omega arith;
}

name2-IsName : IsName name2
name2-IsName = record {
  plain = record { not_empty = λ e. cc; not_dot = λ e. ground arith; no_slash = omega arith };
  no_nul = omega arith;
  short = omega arith;
}

small-IsNamed : IsNamed small
small-IsNamed = (name1-IsName, (name2-IsName, (name1-IsName, tt), tt))

small-IsSized : IsSized small
small-IsSized = (omega arith, ((omega arith, tt), tt))

small_bytes :
    encode small
    ≡ 1 ∷ 0x66 ∷ 0x31 ∷ 0 ∷ 3 ∷ 0 ∷ 0 ∷ 0 ∷ 7 ∷ 0 ∷ 9 ∷ 2 ∷ 0x64 ∷ 0 ∷ 1 ∷ 0x66 ∷ 0x31 ∷ 0 ∷ 1 ∷ 0
      ∷ 0 ∷ 0 ∷ 5 ∷ 3 ∷ []
unfolding encode to_le_bytes
small_bytes = refl

small_unpacked :
    unpack_to_hashmap (encode small)
    ≡ some (ok ((name1, bytes1) ∷ (0x64 ∷ 0x2f ∷ name1, 5 ∷ []) ∷ []))
unfolding encode to_le_bytes from_le_bytes unpack_to_hashmap into_hashmap unpack_visitor read_file
    read_cstr read_le_u32 tag_try_from hashmap_on_file insert bytes_eq PathBuf.push PathBuf.pop
    PathBuf.parent
small_unpacked = refl

read_cstr_iff_example :
    (read_cstr (0 ∷ 0x61 ∷ 0 ∷ 5 ∷ []) ≡ ok (0 ∷ 0x61 ∷ [], 5 ∷ []))
    ↔ IsCstr (0 ∷ 0x61 ∷ 0 ∷ 5 ∷ []) (0 ∷ 0x61 ∷ []) (5 ∷ [])
read_cstr_iff_example = read_cstr_iff (0 ∷ 0x61 ∷ 0 ∷ 5 ∷ []) (0 ∷ 0x61 ∷ []) (5 ∷ [])

pop-join_example : PathBuf.pop (join_slash (name2 ∷ name1 ∷ [])) ≡ join_slash (name2 ∷ [])
pop-join_example = pop-join (name2 ∷ []) name1 (name2-IsName.plain, tt) name1-IsName.plain

pack-encode_example :
    (apply_all (calls small) new >>= λ p. ok p.writer)
    ≡ (if leb (height small) 33 then ok (encode small) else err dir_too_deep)
pack-encode_example = pack-encode small small-IsSized

unpack_visitor-encode_example :
    unpack_visitor hashmap_on_file (encode small) []
    ≡ some (feed hashmap_on_file (listing [] small) [], ok tt)
unpack_visitor-encode_example =
    unpack_visitor-encode hashmap_on_file small [] small-IsNamed small-IsSized

unpack_visitor-ne-none_example : unpack_visitor hashmap_on_file (2 ∷ 9 ∷ []) [] ≢ none
unpack_visitor-ne-none_example = unpack_visitor-ne-none hashmap_on_file (2 ∷ 9 ∷ []) []

small-height : height small ≤ 33
unfolding height
small-height = omega arith

unpack-pack_example :
    (bytes : Bytes) × (m : FileMap) × ((apply_all (calls small) new >>= λ p. ok p.writer)
      ≡ ok bytes)
    × (unpack_to_hashmap bytes ≡ some (ok m))
    × ((path : Bytes) → lookup path m ≡ last_at path (listing [] small) none)
unpack-pack_example = unpack-pack small small-IsNamed small-IsSized small-height

-- A file system as the log of its calls, on which only `locked` cannot be made.
data Call : Type 0 where
  opened : Bytes → Call
  entered : Bytes → Call
  made : Bytes → Call
  wrote : Bytes → Bytes → Call

abbrev logging : Kernel Bytes Bytes (List Call)
logging = record {
  openat2_write = λ d n s. (s ++ opened (PathBuf.push d n) ∷ [], ok (PathBuf.push d n));
  openat2_path = λ d n s. (s ++ entered (PathBuf.push d n) ∷ [], ok (PathBuf.push d n));
  mkdirat2 = λ d n s.
      (s ++ made (PathBuf.push d n) ∷ [], if bytes_eq n (codes "locked") then err 13 else ok tt);
  write_all = λ f c s. (s ++ wrote f c ∷ [], ok tt);
}

unpack_to_dir-ne-none_example : unpack_to_dir logging (2 ∷ 0x61 ∷ 0 ∷ 3 ∷ []) [] [] ≢ none
unpack_to_dir-ne-none_example = unpack_to_dir-ne-none logging (2 ∷ 0x61 ∷ 0 ∷ 3 ∷ []) [] []

unpack_to_dir-encode_example :
    unpack_to_dir logging (encode small) [] []
    ≡ build_then logging [] small [] (λ w. some (w, ok tt))
unpack_to_dir-encode_example = unpack_to_dir-encode logging small [] [] small-IsNamed small-IsSized

unclosed_disagree_example :
    (unpack_to_dir logging (encode small ++ 2 ∷ (name2 ++ 0 ∷ [])) [] []
      ≡ build_then logging [] small []
          (λ w. and_then (mkdirat logging [] name2 w) λ _ w1. some (w1, ok tt)))
    × (unpack_to_hashmap (encode small ++ 2 ∷ (name2 ++ 0 ∷ [])) ≡ some (err archive_truncated))
unclosed_disagree_example =
    unclosed_disagree logging small name2 [] [] small-IsNamed small-IsSized name2-IsName

-- A kernel that moves at most two bytes at a time, and none at the end of a file.
abbrev two_at_most : Bytes → ℕ → ℕ
two_at_most [] len = 0
two_at_most (b ∷ []) len = if leb 1 len then 1 else 0
two_at_most (b ∷ c ∷ r) len = if leb 2 len then 2 else len

abbrev by_twos : Bytes → ℕ → Result ℕ ℕ
by_twos contents len = ok (two_at_most contents len)

by_twos-some_byte :
    (contents : Bytes) (len : ℕ) → 0 < len → len ≤ length contents → 0 < two_at_most contents len
by_twos-some_byte [] len h le = absurd (omega arith)
by_twos-some_byte (b ∷ []) len h le = ground arith
by_twos-some_byte (b ∷ c ∷ r) len h le = ground arith

by_twos-in_range :
    (contents : Bytes) (len : ℕ) → 0 < len → len ≤ length contents → two_at_most contents len ≤ len
by_twos-in_range [] len h le = omega arith
by_twos-in_range (b ∷ []) len h le = ground arith
by_twos-in_range (b ∷ c ∷ r) len h le = ground arith

by_twos-MakesProgress : MakesProgress by_twos
by_twos-MakesProgress = record {
  count = two_at_most;
  answers = λ contents len h le. refl;
  some_byte = by_twos-some_byte;
  in_range = by_twos-in_range;
}

sendfile_all-shrunk_example : sendfile_all by_twos 100 [] 3 bytes1 ≡ none
sendfile_all-shrunk_example = sendfile_all-shrunk by_twos (λ len. refl) 100 3 bytes1 (omega arith)

abbrev listed : Dirents
listed = directory (0x2e ∷ []) end (
    other name2
      (regular name1 (ok (3, bytes1)) (directory name2 (regular name1 (ok (0, [])) end) end)))

listed-IsReadable : IsReadable listed
listed-IsReadable = (tt, (refl, ((refl, tt), tt)))

listed-IsSized : IsSized (forest listed)
unfolding forest is_dot bytes_eq
listed-IsSized = (omega arith, ((omega arith, tt), tt))

abbrev output : Output
output = record {
  write_inner = λ out bytes. some (out ++ bytes);
  flush_inner = λ out. some out;
  sendfile = by_twos;
}

output-IsWritable : IsWritable output
output-IsWritable = record {
  appends = λ out bytes. refl;
  flushes = λ out. refl;
  progress = by_twos-MakesProgress;
}

pack_dir_to_writer-encode_example : pack_dir_to_writer output listed bytes1 ≡ (
    if leb (height (forest listed)) 33
    then ok (bytes1 ++ encode (forest listed))
    else err (returned on_dir))
pack_dir_to_writer-encode_example =
    pack_dir_to_writer-encode output output-IsWritable listed bytes1 listed-IsReadable
      listed-IsSized

-- A file to which nothing can be written: the error comes with the flush in front of sendfile.
abbrev full : Output
full = record output { write_inner = λ out bytes. none }

full_disk : pack_dir_to_writer full listed [] ≡ err (returned flush)
unfolding pack_dir_to_writer visit_dirc_rec fs_on_file put flush_and_send write_all BufWriter.flush
    flush_buf flush_buf_of is_dot bytes_eq tag_byte to_le_bytes
full_disk = refl
