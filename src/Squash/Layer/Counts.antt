-- ===== src/Squash/Layer/Counts.antt =====
-- Every entry of a layer is written, counted or a mark.
use program_explorer.Prelude.{
  ℕ, ◌+◌, ◌^◌, ◌<◌, ◌≡◌, arith, List, [], ◌∷◌, Option, none, some, map, length, length-append, inl,
  inr,
}
use mathlib.Core.Path.{subst}
use program_explorer.Prelude.Result.{
  Result, ok, err, Result-cases, Succeeds, Succeeds-bind, Succeeds-map,
}
use program_explorer.Squash.Mark.{Error, Whiteout}
use program_explorer.Squash.Deletions.{DeletionReason, is_deleted}
use program_explorer.Squash.Layer.{
  Entry, Squash, Stats, squash_entry, squash_entries, squash_layer, after_whiteout, after_deleted,
  count, whiteout, inc, close,
}
use program_explorer.Squash.Layer.Whiteouts.{whiteout-ok}
use program_explorer.Squash.Layer.Run.{collect}

-- The entries that were left out.
abbrev pub counted : Stats → ℕ
counted s = s.deletions + s.deletion_dirs + s.opaques + s.shadowed

abbrev pub marks_in : Result Error (Option Whiteout) → ℕ
marks_in (ok (some w)) = 1
marks_in (ok none) = 0
marks_in (err e) = 0

inc-lt : (n : ℕ) → n + 1 < 2 ^ 64 → inc n ≡ n + 1
inc-lt n h = omega arith

counted-count :
    (r : DeletionReason) (s : Stats) → counted s + 1 < 2 ^ 64 → counted (count r s) ≡ counted s + 1
unfolding count
counted-count DeletionReason.whiteout s h = omega (arith, inc-lt s.deletions)
counted-count DeletionReason.whiteout_dir s h = omega (arith, inc-lt s.deletion_dirs)
counted-count DeletionReason.opaque s h = omega (arith, inc-lt s.opaques)
counted-count DeletionReason.shadowed s h = omega (arith, inc-lt s.shadowed)

module _ {ℓ} {T : Type ℓ} where
  -- How many entries are marks of deleted paths.
  abbrev pub number_of_marks : List (Entry T) → ℕ
  number_of_marks [] = 0
  number_of_marks (e ∷ es) = marks_in (whiteout e.path) + number_of_marks es

  abbrev pub done : Squash (List (Entry T)) → ℕ
  done q = counted q.stats + length q.cb

  done-deleted :
      (i : ℕ) (q : Squash (List (Entry T))) (e : Entry T) (o : Option DeletionReason)
      → done q + 1 < 2 ^ 64
      → Succeeds (λ q'. done q' ≡ done q + 1) (after_deleted collect i q e o)
  unfolding after_deleted
  done-deleted i q e (some r) h = omega (arith, counted-count r q.stats)
  done-deleted i q e none h = omega (arith, length-append q.cb (e ∷ []))

  done-whiteout :
      (i : ℕ) (q : Squash (List (Entry T))) (e : Entry T) (w : Option Whiteout)
      → done q + 1 < 2 ^ 64
      → Succeeds (λ q'. marks_in (ok w) + done q' ≡ done q + 1) (after_whiteout collect i q e w)
  unfolding after_whiteout
  done-whiteout i q e (some w) h = omega arith
  done-whiteout i q e none h =
      Succeeds-map (λ q'. done q' ≡ done q + 1) (λ q'. marks_in (ok none) + done q' ≡ done q + 1)
        (after_deleted collect i q e (is_deleted e.path q.deletions)) (done-deleted i q e _ h)
        (λ q' k. omega arith)

  done-entry :
      (i : ℕ) (q : Squash (List (Entry T))) (e : Entry T)
      → done q + 1 < 2 ^ 64
      → Succeeds
          (λ q'. marks_in (whiteout e.path) + done q' ≡ done q + 1)
          (squash_entry collect i q e)
  unfolding squash_entry
  done-entry i q e h = elim (Result-cases (whiteout e.path)) [
    | inl (w, k) ↦ rw k (done-whiteout i q e w h)
    | inr (x, k) ↦ absurd (subst (Succeeds (λ w. Unit {0})) k (whiteout-ok e.path)).lower
  ]

  done-entries :
      (i : ℕ) (es : List (Entry T)) (q : Squash (List (Entry T)))
      → done q + length es < 2 ^ 64
      → Succeeds
          (λ q'. number_of_marks es + done q' ≡ done q + length es)
          (squash_entries collect i q (map ok es))
  unfolding squash_entries
  done-entries i [] q h = omega arith
  done-entries i (e ∷ es) q h =
      Succeeds-bind (λ q'. marks_in (whiteout e.path) + done q' ≡ done q + 1)
        (λ q''. number_of_marks (e ∷ es) + done q'' ≡ done q + length (e ∷ es))
        (squash_entry collect i q e) (λ q'. squash_entries collect i q' (map ok es))
        (done-entry i q e (omega arith))
        (λ q' k.
          Succeeds-map (λ q''. number_of_marks es + done q'' ≡ done q' + length es)
            (λ q''. number_of_marks (e ∷ es) + done q'' ≡ done q + length (e ∷ es))
            (squash_entries collect i q' (map ok es)) (done-entries i es q' (omega arith))
            (λ q'' l. omega arith))

  -- A layer that can be read is squashed, with the callback that collects the entries, and each of its
  -- entries is either a mark of a deleted path, or written, or counted once as left out, as long as
  -- the numbers of entries fit a usize.
  pub squash_layer-done :
      (i : ℕ) (es : List (Entry T)) (q : Squash (List (Entry T)))
      → done q + length es < 2 ^ 64
      → Succeeds
          (λ q'. number_of_marks es + done q' ≡ done q + length es)
          (squash_layer collect i q (ok (map ok es)))
  unfolding squash_layer
  squash_layer-done i es q h =
      Succeeds-bind (λ q'. number_of_marks es + done q' ≡ done q + length es)
        (λ q'. number_of_marks es + done q' ≡ done q + length es)
        (squash_entries collect i q (map ok es))
        (λ q'. ok (record q' { deletions = close i q'.deletions })) (done-entries i es q h)
        (λ q' k. k)
