-- ===== src/Squash/Tests.antt =====
-- The theorems on squashing at concrete layers.
use program_explorer.Prelude.{
  ℕ, ◌≡◌, ◌≢◌, false, refl, arith, none, some, List, [], ◌∷◌, map, inl, ◌+◌, length,
}
use program_explorer.Prelude.Bytes.{Bytes, codes, bytes_eq, bytes_eq_iff}
use program_explorer.Prelude.Result.{Result, ok, Succeeds}
use program_explorer.PathBuf.{
  dot, join_slash, file_name, parent, with_file_name, split_slash, trim, pop, push,
}
use program_explorer.PathBuf.Plain.{IsPlain}
use program_explorer.Squash.Order.{bytes_lt}
use program_explorer.Squash.Mark.{Error, Whiteout}
use program_explorer.Squash.Deletions.{
  Deletions, DeletionReason, DeletionState, default, is_deleted, insert_seen, push_opaque,
  push_whiteout, end_of_layer, without_trailing_slash, insert, insert_map, floor,
  os_str_starts_with, strip_prefix,
}
use program_explorer.Squash.Deletions.Keys.{IsSorted, lookup}
use program_explorer.Squash.Deletions.Layer.{end_of_layer_lem, marked, contains}
use program_explorer.Squash.Deletions.Reasons.{
  IsBare, Explains, is_deleted-Explains, is_deleted-below, NoKeyBetween,
}
use program_explorer.Squash.Deletions.Seen.{
  Change, seen, whited_out, layer_ended, apply_all, insert_seen-is_deleted, opaque_forgotten,
}
use program_explorer.Squash.Layer.{
  Entry, Squash, Stats, Compression, uncompressed, gzip, squash_entry, squash_layer, squash_cb,
  whiteout, no_stats,
}
use program_explorer.Squash.Layer.Run.{collect}
use program_explorer.Squash.Layer.Once.{DistinctBare}
use program_explorer.Squash.Layer.Lowest.{IsParted, squash_cb-IsParted}
use program_explorer.Squash.Layer.Counts.{done, number_of_marks, squash_layer-done}

-- The state behind a layer that whites out `d` and saw `e`.
abbrev one_layer : Deletions
one_layer = record {
  map = (codes "d", DeletionState.whiteout) ∷ (codes "e", DeletionState.shadowed) ∷ [];
  whiteout_q = codes "x" ∷ [];
  opaque_q = codes "e" ∷ [];
}

d-IsBare : IsBare (codes "d/f")
unfolding without_trailing_slash
d-IsBare = refl

one_layer-IsSorted : IsSorted one_layer.map
one_layer-IsSorted = ((inl (omega arith), tt), (tt, tt))

d_between : NoKeyBetween (codes "d") (codes "d/f") one_layer.map
d_between = ((λ l. l), ((λ l. inl (omega arith)), tt))

is_deleted-below_example :
    ((lookup (codes "d") one_layer.map ≡ some DeletionState.whiteout)
      → is_deleted (codes "d/f/") one_layer ≡ some DeletionReason.whiteout_dir)
    × ((lookup (codes "d") one_layer.map ≡ some DeletionState.opaque)
        → is_deleted (codes "d/f/") one_layer ≡ some DeletionReason.opaque)
unfolding without_trailing_slash
is_deleted-below_example =
    is_deleted-below (codes "d/f/") (codes "d") one_layer one_layer-IsSorted
      (record { rest = codes "f"; path_eq = refl }) d_between

d_below : is_deleted (codes "d/f") one_layer ≡ some DeletionReason.whiteout_dir
unfolding is_deleted floor os_str_starts_with strip_prefix without_trailing_slash bytes_eq bytes_lt
d_below = refl

is_deleted-Explains_example :
    (key : Bytes) × (s : DeletionState) × (lookup key one_layer.map ≡ some s)
    × Explains (without_trailing_slash (codes "d/f")) key s DeletionReason.whiteout_dir
is_deleted-Explains_example =
    is_deleted-Explains (codes "d/f") one_layer DeletionReason.whiteout_dir one_layer-IsSorted
      d_below

end_of_layer_lem_example :
    ((end_of_layer one_layer).whiteout_q ≡ [])
    × ((end_of_layer one_layer).opaque_q ≡ [])
    × IsSorted (end_of_layer one_layer).map
    × ((q : Bytes)
        → lookup q (end_of_layer one_layer).map
          ≡ marked (contains one_layer.opaque_q q) DeletionState.opaque (
              marked
                (contains one_layer.whiteout_q q)
                DeletionState.whiteout
                (lookup q one_layer.map)))
end_of_layer_lem_example = end_of_layer_lem one_layer one_layer-IsSorted

-- Another path, a mark on the path's directory, the end of the layer, and a path of the next one.
abbrev changes : List Change
changes = seen (codes "d/g") ∷ whited_out (codes "d") ∷ layer_ended ∷ seen (codes "d/f") ∷ []

insert_seen-is_deleted_example :
    is_deleted (codes "d/f/") (apply_all changes (insert_seen (codes "d/f") one_layer)) ≢ none
unfolding without_trailing_slash
insert_seen-is_deleted_example =
    insert_seen-is_deleted (codes "d/f") (codes "d/f/") one_layer changes one_layer-IsSorted
      d-IsBare refl

abbrev g_layer : Deletions
g_layer = end_of_layer (insert_seen (codes "d/g") (push_opaque (codes "d") default))

opaque_forgotten_example :
    (lookup (codes "d") g_layer.map ≡ some DeletionState.opaque)
    × (is_deleted (codes "d/f") g_layer ≡ some DeletionReason.opaque)
    × (is_deleted (codes "d/h") g_layer ≡ none)
unfolding without_trailing_slash
opaque_forgotten_example =
    opaque_forgotten (codes "d") (codes "g") (codes "h") (codes "f") (inl (omega arith))
      (inl (omega arith)) refl refl refl

abbrev wh_f : Bytes
wh_f = codes ".wh.f"

d-IsPlain : IsPlain (codes "d")
d-IsPlain = record { not_empty = λ e. cc; not_dot = λ e. ground arith; no_slash = omega arith }

wh_f-IsPlain : IsPlain wh_f
wh_f-IsPlain = record { not_empty = λ e. cc; not_dot = λ e. cc; no_slash = omega arith }

wh_f-not_up : bytes_eq wh_f (dot ∷ dot ∷ []) ≡ false
unfolding bytes_eq
wh_f-not_up = refl

wh_f_whiteout : whiteout (codes "d/.wh.f") ≡ ok (some (Whiteout.whiteout (codes "d/f")))
unfolding whiteout file_name parent with_file_name split_slash trim pop push join_slash strip_prefix
wh_f_whiteout = refl

differ : (a b : Bytes) → bytes_eq a b ≡ false → a ≢ b
differ a b h e = absurd (ground (arith, (bytes_eq_iff a b).1 e))

-- Two layers, the upper one with a mark, read as they stand.
abbrev entry : Bytes → Entry ℕ
entry p = record { path = p; content = 0 }

abbrev upper_layer : List (Entry ℕ)
upper_layer = entry (codes "d/.wh.f") ∷ entry (codes "d/g") ∷ []

abbrev base_layer : List (Entry ℕ)
base_layer = entry (codes "d/f") ∷ entry (codes "d/g") ∷ entry (codes "h") ∷ []

abbrev decode : Compression → List (Entry ℕ) → Result Error (List (Result Error (Entry ℕ)))
decode c es = ok (map ok es)

layers_squashed :
    squash_cb decode collect [] ((gzip, base_layer) ∷ (uncompressed, upper_layer) ∷ [])
    ≡ ok (
      entry (codes "d/g") ∷ entry (codes "h") ∷ [],
      record {
        deletions = 1;
        deletion_dirs = 0;
        opaques = 0;
        shadowed = 1;
        deletions_map_size = 2;
      },
    )
unfolding squash_cb squash_layer whiteout file_name parent with_file_name split_slash trim pop push
    join_slash strip_prefix is_deleted insert_seen insert insert_map end_of_layer floor
    os_str_starts_with bytes_eq without_trailing_slash push_whiteout squash_entry bytes_lt
layers_squashed = refl

base_layer-DistinctBare : DistinctBare base_layer
unfolding bytes_eq
base_layer-DistinctBare = (
  (
    (λ b. differ (codes "d/f") (codes "d/g") refl),
    ((λ b. differ (codes "d/f") (codes "h") refl), tt),
  ),
  (((λ b. differ (codes "d/g") (codes "h") refl), tt), (tt, tt)),
)

squash_cb-IsParted_example :
    Succeeds
      (λ (r : List (Entry ℕ) × Stats).
        IsParted base_layer r.0 × (DistinctBare base_layer → DistinctBare r.0))
      (squash_cb decode collect [] ((gzip, base_layer) ∷ (uncompressed, upper_layer) ∷ []))
squash_cb-IsParted_example =
    squash_cb-IsParted decode gzip base_layer base_layer ((uncompressed, upper_layer) ∷ []) refl
      ((tt, (tt, tt)), tt)

abbrev start : Squash (List (Entry ℕ))
start = record { cb = []; stats = no_stats; deletions = default }

squash_layer-done_example :
    Succeeds
      (λ q'. number_of_marks upper_layer + done q' ≡ done start + length upper_layer)
      (squash_layer collect 1 start (ok (map ok upper_layer)))
squash_layer-done_example = squash_layer-done 1 upper_layer start (omega arith)
