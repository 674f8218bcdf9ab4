-- ===== src/Peerofs/Tests/Entries.antt =====
-- Theorems on the writer and the reader of an image at concrete trees and images.
use program_explorer.Prelude.{◌^◌, ◌≡◌, refl, arith, some, List, [], ◌∷◌, length, map, take}
use program_explorer.Prelude.Bytes.{Bytes, codes, to_le_bytes}
use program_explorer.Prelude.Result.{ok}
use program_explorer.Peerofs.Dirents.Chunks.{total}
use program_explorer.Peerofs.Disk.{directory, regular_file}
use program_explorer.Peerofs.Disk.Entries.{
  DirentItem, DirentsIterator, dirent_bytes, items, new_iterator, loop_fuel,
}
use program_explorer.Peerofs.Writer.{Meta, File, Dirent, file_child, dot, dot_dot, file_type}
use program_explorer.Peerofs.Writer.Entries.{child_id, write_blocks}
use program_explorer.Peerofs.Writer.Entries.Written.{concat, appending}
use program_explorer.Peerofs.Writer.Entries.ReadBack.{IsBlock}
use program_explorer.Peerofs.Writer.Entries.WholeDirectory.{name_chunks, items-write_blocks}

abbrev meta : Meta
meta = record { uid = 0; gid = 0; mtime = 0; mode = 420; xattrs = [] }

abbrev a_file : File
a_file = record {
  meta = meta;
  start_block = 1;
  n_links = 1;
  len = 3;
  tail = some (1 ∷ 2 ∷ 3 ∷ []);
  disk_id = some 7;
}

abbrev entries : List (List (Bytes × Dirent))
entries = ((codes ".", dot) ∷ (codes "..", dot_dot) ∷ (codes "a", file_child a_file) ∷ []) ∷ []

abbrev shown : List DirentItem
shown =
    record { disk_id = 5; file_type = directory; name = codes "." }
    ∷ record { disk_id = 2; file_type = directory; name = codes ".." }
    ∷ record { disk_id = 7; file_type = regular_file; name = codes "a" }
    ∷ []

shown-IsBlock : IsBlock shown
unfolding dirent_bytes to_le_bytes
shown-IsBlock = record {
  some_entry = omega arith;
  fits = omega arith;
  all_items = (
    record { disk_id_lt = omega arith; no_zero = (omega arith, tt) },
    (
      record { disk_id_lt = omega arith; no_zero = (omega arith, (omega arith, tt)) },
      (record { disk_id_lt = omega arith; no_zero = (omega arith, tt) }, tt),
    ),
  );
}

items-write_blocks_example :
    (written : Bytes) × (it : DirentsIterator) × (write_blocks appending
        (2 ∷ [])
        (some 5)
        (map length (shown ∷ []))
        []
        (concat entries)
      ≡ ok (written, []))
    × (let bytes : Bytes = take (total (2 ^ 12) (name_chunks (shown ∷ []))) written in
        (new_iterator (bytes, []) (2 ^ 12) ≡ ok it)
        × (items (loop_fuel (bytes, [])) it ≡ some (ok (concat (shown ∷ [])))))
unfolding child_id file_type
items-write_blocks_example =
    items-write_blocks (2 ∷ []) (some 5) entries shown []
      ((refl, refl, refl, (refl, refl, refl, (refl, refl, refl, tt))), tt) shown-IsBlock tt
