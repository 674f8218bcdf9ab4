-- ===== src/Squash/Layer/Run.antt =====
-- Runs over layers that can be read, with a callback that collects the entries.
use program_explorer.Prelude.{ℕ, suc, ◌≡◌, refl, List, [], ◌∷◌, ◌++◌, All, All-reverse, Option}
use mathlib.Core.List.{reverse, reverse-append}
use program_explorer.Prelude.Result.{Result, ok, err, Succeeds, Succeeds-bind}
use program_explorer.Squash.Mark.{Error, Whiteout}
use program_explorer.Squash.Deletions.{default}
use program_explorer.Squash.Layer.{
  Entry, Squash, Stats, Compression, squash_entry, squash_entries, squash_layer, squash_layers,
  whiteout, after_whiteout, enumerate, close, squash_cb, finish, no_stats,
}
use program_explorer.Squash.Layer.Whiteouts.{whiteout-ok}

enumerate-above {ℓ} :
    {R : Type ℓ} (i : ℕ) (ls : List R) → All (λ l. (j : ℕ) × (l.0 ≡ suc j)) (enumerate (suc i) ls)
enumerate-above i [] = tt
enumerate-above i (l ∷ ls) = ((i, refl), enumerate-above (suc i) ls)

module _ {ℓ} {T : Type ℓ} where
  -- The callback that collects what it is shown.
  abbrev pub collect : List (Entry T) → Entry T → Result Error (List (Entry T))
  collect out entry = ok (out ++ entry ∷ [])

  -- The archive is read to its end without an error.
  abbrev pub IsReadable : Result Error (List (Result Error (Entry T))) → Type 0
  IsReadable layer = Succeeds (All (Succeeds (λ e. Unit {0}))) layer

  module _ {ν} (P : Squash (List (Entry T)) → Type ν) where
    -- One entry that keeps `P` for every mark it may be.
    pub squash_entry-Succeeds :
        (i : ℕ) (q : Squash (List (Entry T))) (entry : Entry T)
        → ((w : Option Whiteout) → Succeeds P (after_whiteout collect i q entry w))
        → Succeeds P (squash_entry collect i q entry)
    unfolding squash_entry
    squash_entry-Succeeds i q entry h =
        Succeeds-bind (λ w. Unit {0}) P (whiteout entry.path) (after_whiteout collect i q entry)
          (whiteout-ok entry.path) (λ w u. h w)

    -- What every entry keeps, the entries keep.
    pub squash_entries-Succeeds :
        (i : ℕ) (q : Squash (List (Entry T))) (es : List (Result Error (Entry T)))
        → ((q : Squash (List (Entry T))) (entry : Entry T)
            → P q
            → Succeeds P (squash_entry collect i q entry))
        → All (Succeeds (λ e. Unit {0})) es
        → P q
        → Succeeds P (squash_entries collect i q es)
    unfolding squash_entries
    squash_entries-Succeeds i q [] step r h = h
    squash_entries-Succeeds i q (ok entry ∷ es) step (r, rs) h =
        Succeeds-bind P P (squash_entry collect i q entry) (λ q'. squash_entries collect i q' es)
          (step q entry h) (λ q' h'. squash_entries-Succeeds i q' es step rs h')
    squash_entries-Succeeds i q (err e ∷ es) step (r, rs) h = absurd r.lower

    pub squash_layer-Succeeds :
        (i : ℕ) (q : Squash (List (Entry T))) (layer : Result Error (List (Result Error (Entry T))))
        → ((q : Squash (List (Entry T))) (entry : Entry T)
            → P q
            → Succeeds P (squash_entry collect i q entry))
        → ((q : Squash (List (Entry T))) → P q → P (record q { deletions = close i q.deletions }))
        → IsReadable layer
        → P q
        → Succeeds P (squash_layer collect i q layer)
    unfolding squash_layer
    squash_layer-Succeeds i q (ok entries) step last r h =
        Succeeds-bind P P (squash_entries collect i q entries)
          (λ q'. ok (record q' { deletions = close i q'.deletions }))
          (squash_entries-Succeeds i q entries step r h) last
    squash_layer-Succeeds i q (err e) step last r h = absurd r.lower

  module _ {κ} {R : Type κ}
      (decode : Compression → R → Result Error (List (Result Error (Entry T)))) where
    abbrev pub Readable : List (ℕ × (Compression × R)) → Type 0
    Readable layers = All (λ l. IsReadable (decode (l.1).0 (l.1).1)) layers

    -- The layers above the lowest one, then the lowest one.
    pub squash_layers-snoc {ν ξ} :
        (P : Squash (List (Entry T)) → Type ν) (Q : Squash (List (Entry T)) → Type ξ)
        (q : Squash (List (Entry T))) (ls : List (ℕ × (Compression × R)))
        (l : ℕ × (Compression × R))
        → ((i : ℕ) (q : Squash (List (Entry T))) (c : Compression) (r : R)
            → IsReadable (decode c r)
            → P q
            → Succeeds P (squash_layer collect (suc i) q (decode c r)))
        → All (λ l. (i : ℕ) × (l.0 ≡ suc i)) ls
        → Readable ls
        → ((q : Squash (List (Entry T)))
            → P q
            → Succeeds Q (squash_layer collect l.0 q (decode (l.1).0 (l.1).1)))
        → P q
        → Succeeds Q (squash_layers decode collect q (ls ++ l ∷ []))
    unfolding squash_layers
    squash_layers-snoc P Q q [] (i, (c, r)) step above rs last h =
        Succeeds-bind Q Q (squash_layer collect i q (decode c r)) (λ q'. ok q') (last q h)
          (λ q' k. k)
    squash_layers-snoc P Q q ((j, (c, r)) ∷ ls) l step ((i, e), above) (rd, rs) last h =
        Succeeds-bind P Q (squash_layer collect j q (decode c r))
          (λ q'. squash_layers decode collect q' (ls ++ l ∷ [])) (rw e (step i q c r rd h))
          (λ q' k. squash_layers-snoc P Q q' ls l step above rs last k)

    enumerate-Readable :
        (i : ℕ) (ls : List (Compression × R))
        → All (λ l. IsReadable (decode l.0 l.1)) ls
        → Readable (enumerate i ls)
    enumerate-Readable i [] h = tt
    enumerate-Readable i ((c, r) ∷ ls) (h, hs) = (h, enumerate-Readable (suc i) ls hs)

    -- A whole run: `P` holds at the start and is kept by the layers above the lowest one, which makes
    -- it into `Q`, and `Z` follows from that at the end.
    pub squash_cb-Succeeds {ν ξ π} :
        (P : Squash (List (Entry T)) → Type ν) (Q : Squash (List (Entry T)) → Type ξ)
        (Z : List (Entry T) × Stats → Type π) (base : Compression × R)
        (upper : List (Compression × R))
        → ((i : ℕ) (q : Squash (List (Entry T))) (c : Compression) (r : R)
            → IsReadable (decode c r)
            → P q
            → Succeeds P (squash_layer collect (suc i) q (decode c r)))
        → ((q : Squash (List (Entry T)))
            → P q
            → Succeeds Q (squash_layer collect 0 q (decode base.0 base.1)))
        → ((q : Squash (List (Entry T))) → Q q → Z (finish q))
        → All (λ l. IsReadable (decode l.0 l.1)) upper
        → P (record { cb = []; stats = no_stats; deletions = default })
        → Succeeds Z (squash_cb decode collect [] (base ∷ upper))
    unfolding squash_cb
    squash_cb-Succeeds P Q Z (c, r) upper step last final rs h =
        rw (reverse-append ((0, (c, r)) ∷ []) (enumerate 1 upper)) (
          Succeeds-bind Q Z _ (λ q. ok (finish q))
            (squash_layers-snoc P Q (record { cb = []; stats = no_stats; deletions = default })
              (reverse (enumerate 1 upper)) (0, (c, r)) step
              (All-reverse (λ l. (j : ℕ) × (l.0 ≡ suc j)) (enumerate 1 upper)
                (enumerate-above 0 upper))
              (All-reverse (λ l. IsReadable (decode (l.1).0 (l.1).1)) (enumerate 1 upper)
                (enumerate-Readable 1 upper rs))
              last h)
            final)
