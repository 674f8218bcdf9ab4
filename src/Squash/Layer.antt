-- ===== src/Squash/Layer.antt =====
-- `squash_layer` and `squash_cb` of peimage/src/squash.rs: the layers from the last to the first,
-- each an archive of entries, and a callback for the entries that stay. The readers of the archives
-- (the crates tar, flate2 and zstd) are a parameter.
pub mod Whiteouts
pub mod Run
pub mod Once
pub mod Lowest
pub mod Counts
use program_explorer.Prelude.{
  ℕ, zero, suc, ◌+◌, ◌%◌, ◌^◌, Bool, true, false, Option, none, some, List, [], ◌∷◌, ◌++◌, ◌==◌,
  if◌then◌else◌, length,
}
use mathlib.Core.List.{reverse}
use program_explorer.Prelude.Bytes.{Bytes, codes}
use program_explorer.Prelude.Result.{Result, ok, err, ◌>>=◌, ok_or}
use program_explorer.PathBuf.{parent, file_name, with_file_name}
use program_explorer.Squash.Mark.{Error, opaque_whiteout_no_parent, Whiteout}
use program_explorer.Squash.Deletions
use program_explorer.Squash.Deletions.{
  DeletionReason, Deletions, default, strip_prefix, push_whiteout, push_opaque, insert_seen,
  is_deleted, end_of_layer,
}

pub record Stats : Type 0 where
  pub deletions : ℕ
  pub deletion_dirs : ℕ
  pub opaques : ℕ
  pub shadowed : ℕ
  pub deletions_map_size : ℕ

-- `Stats::default()`
abbrev pub no_stats : Stats
no_stats = record {
  deletions = 0;
  deletion_dirs = 0;
  opaques = 0;
  shadowed = 0;
  deletions_map_size = 0;
}

-- `+= 1` on a usize.
abbrev pub inc : ℕ → ℕ
inc n = (n + 1) % 2 ^ 64

abbrev pub opaque_prefix : Bytes
opaque_prefix = codes ".wh..wh..opq"

abbrev pub whiteout_prefix : Bytes
whiteout_prefix = codes ".wh."

unfoldable hidden_name : Bytes → Option Bytes → Result Error (Option Whiteout)
hidden_name path none = ok none
hidden_name path (some trimmed) = ok (some (Whiteout.whiteout (with_file_name path trimmed)))

unfoldable opaque_parent : Option Bytes → Result Error (Option Whiteout)
opaque_parent none = err opaque_whiteout_no_parent
opaque_parent (some dir) = ok (some (Whiteout.opaque dir))

unfoldable whiteout_of_prefixes :
    Bytes → Option Bytes → Option Bytes → Result Error (Option Whiteout)
unfolding hidden_name opaque_parent
whiteout_of_prefixes path (some suffix) trimmed = opaque_parent (parent path)
whiteout_of_prefixes path none trimmed = hidden_name path trimmed

unfoldable whiteout_of_name : Bytes → Option Bytes → Result Error (Option Whiteout)
unfolding whiteout_of_prefixes
whiteout_of_name path none = ok none
whiteout_of_name path (some name) =
    whiteout_of_prefixes path (strip_prefix name opaque_prefix) (strip_prefix name whiteout_prefix)

-- The mark that an entry with this path is, if it is one.
unfoldable pub whiteout : Bytes → Result Error (Option Whiteout)
unfolding whiteout_of_name
whiteout path = whiteout_of_name path (file_name path)

-- An entry has its path and what the callback reads of it.
pub record Entry {ℓ} (T : Type ℓ) : Type ℓ where
  pub path : Bytes
  pub content : T

-- What a layer works on: the callback's state, the counters and the deletions.
pub record Squash {κ} (S : Type κ) : Type κ where
  pub cb : S
  pub stats : Stats
  pub deletions : Deletions

unfoldable pub count : DeletionReason → Stats → Stats
count DeletionReason.whiteout s = record s { deletions = inc s.deletions }
count DeletionReason.whiteout_dir s = record s { deletion_dirs = inc s.deletion_dirs }
count DeletionReason.opaque s = record s { opaques = inc s.opaques }
count DeletionReason.shadowed s = record s { shadowed = inc s.shadowed }

-- A whiteout is pushed on its queue, except on the last layer to be processed, which is layer 0.
unfoldable pub store : Whiteout → ℕ → Deletions → Deletions
store w zero d = d
store (Whiteout.whiteout p) (suc i) d = push_whiteout p d
store (Whiteout.opaque p) (suc i) d = push_opaque p d

unfoldable pub store_seen : Bytes → ℕ → Deletions → Deletions
store_seen p zero d = d
store_seen p (suc i) d = insert_seen p d

unfoldable pub close : ℕ → Deletions → Deletions
close zero d = d
close (suc i) d = end_of_layer d

module _ {ℓ κ} {T : Type ℓ} {S : Type κ} where
  unfoldable pub after_deleted :
      (on_entry : S → Entry T → Result Error S)
      → ℕ
      → Squash S
      → Entry T
      → Option DeletionReason
      → Result Error (Squash S)
  unfolding count store_seen
  after_deleted on_entry i q entry (some reason) = ok (record q { stats = count reason q.stats })
  after_deleted on_entry i q entry none = do
    s ← on_entry q.cb entry
    ok (record q { cb = s; deletions = store_seen entry.path i q.deletions })

  unfoldable pub after_whiteout :
      (on_entry : S → Entry T → Result Error S)
      → ℕ
      → Squash S
      → Entry T
      → Option Whiteout
      → Result Error (Squash S)
  unfolding after_deleted store
  after_whiteout on_entry i q entry (some w) = ok (record q { deletions = store w i q.deletions })
  after_whiteout on_entry i q entry none =
      after_deleted on_entry i q entry (is_deleted entry.path q.deletions)

  -- One round of the loop over the entries; an entry that cannot be read ends it.
  unfoldable pub squash_entry :
      (on_entry : S → Entry T → Result Error S) → ℕ → Squash S → Entry T → Result Error (Squash S)
  unfolding after_whiteout
  squash_entry on_entry i q entry = do w ← whiteout entry.path; after_whiteout on_entry i q entry w

  unfoldable pub squash_entries :
      (on_entry : S → Entry T → Result Error S)
      → ℕ
      → Squash S
      → List (Result Error (Entry T))
      → Result Error (Squash S)
  squash_entries on_entry i q [] = ok q
  squash_entries on_entry i q (e ∷ es) = do
    entry ← e
    q' ← squash_entry on_entry i q entry
    squash_entries on_entry i q' es

  unfoldable pub squash_layer :
      (on_entry : S → Entry T → Result Error S)
      → ℕ
      → Squash S
      → Result Error (List (Result Error (Entry T)))
      → Result Error (Squash S)
  unfolding squash_entries close
  squash_layer on_entry i q layer = do
    entries ← layer
    q' ← squash_entries on_entry i q entries
    ok (record q' { deletions = close i q'.deletions })

unfoldable pub finish {κ} : {S : Type κ} → Squash S → S × Stats
finish q = (q.cb, record (q.stats) { deletions_map_size = length q.deletions.map })

pub data Compression : Type 0 where
  uncompressed gzip zstd : Compression

abbrev pub enumerate {ℓ} : {A : Type ℓ} → ℕ → List A → List (ℕ × A)
enumerate i [] = []
enumerate i (x ∷ xs) = (i, x) ∷ enumerate (suc i) xs

module _ {ℓ κ μ} {T : Type ℓ} {S : Type κ} {R : Type μ} where
  -- The layers in the order in which they are processed. `decode` reads an archive.
  unfoldable pub squash_layers :
      (decode : Compression → R → Result Error (List (Result Error (Entry T))))
      → (on_entry : S → Entry T → Result Error S) → Squash S
      → List (ℕ × (Compression × R))
      → Result Error (Squash S)
  squash_layers decode on_entry q [] = ok q
  squash_layers decode on_entry q ((i, (compression, reader)) ∷ layers) = do
    q' ← squash_layer on_entry i q (decode compression reader)
    squash_layers decode on_entry q' layers

  unfoldable pub squash_cb :
      (decode : Compression → R → Result Error (List (Result Error (Entry T))))
      → (on_entry : S → Entry T → Result Error S) → S
      → List (Compression × R)
      → Result Error (S × Stats)
  unfolding squash_layers finish
  squash_cb decode on_entry s layer_readers = do
    q ←
        squash_layers decode on_entry (record { cb = s; stats = no_stats; deletions = default })
          (reverse (enumerate 0 layer_readers))
    ok (finish q)
