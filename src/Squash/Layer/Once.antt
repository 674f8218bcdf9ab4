-- ===== src/Squash/Layer/Once.antt =====
-- No path without a trailing slash comes into the image twice from the layers above the lowest one.
use program_explorer.Prelude.{
  ℕ, suc, ◌≡◌, ◌≢◌, refl, List, [], ◌∷◌, ◌++◌, All, All-append, Option, none, some,
}
use mathlib.Core.Path.{subst}
use program_explorer.Prelude.Result.{Result, Succeeds}
use program_explorer.Squash.Mark.{Error, Whiteout}
use program_explorer.Squash.Deletions.{
  Deletions, DeletionReason, is_deleted, push_whiteout, push_opaque,
}
use program_explorer.Squash.Deletions.Keys.{IsSorted}
use program_explorer.Squash.Deletions.Layer.{end_of_layer-IsSorted}
use program_explorer.Squash.Deletions.Reasons.{IsBare}
use program_explorer.Squash.Deletions.Seen.{
  IsHidden, hidden-is_deleted, insert_seen-IsHidden, insert_seen-keeps, insert_seen-IsSorted,
  end_of_layer-keeps,
}
use program_explorer.Squash.Layer.{
  Entry, Squash, squash_layer, after_whiteout, after_deleted, store, store_seen, close,
}
use program_explorer.Squash.Layer.Run.{
  collect, IsReadable, squash_entry-Succeeds, squash_layer-Succeeds,
}

module _ {ℓ} {T : Type ℓ} where
  -- The entries have different paths, if the first one's is bare.
  abbrev pub Apart : Entry T → Entry T → Type 0
  Apart x y = IsBare x.path → x.path ≢ y.path

  abbrev pub DistinctBare : List (Entry T) → Type 0
  DistinctBare [] = Unit
  DistinctBare (x ∷ xs) = All (Apart x) xs × DistinctBare xs

  pub DistinctBare-snoc :
      (xs : List (Entry T)) (e : Entry T)
      → DistinctBare xs
      → All (λ x. Apart x e) xs
      → DistinctBare (xs ++ e ∷ [])
  DistinctBare-snoc [] e h k = (tt, tt)
  DistinctBare-snoc (x ∷ xs) e (h, hs) (k, ks) =
      (All-append (Apart x) xs (e ∷ []) h (k, tt), DistinctBare-snoc xs e hs ks)

  -- The deletions hide every bare path of the list.
  abbrev pub Hidden : Deletions → List (Entry T) → Type 0
  Hidden d xs = All (λ e. IsBare e.path → IsHidden e.path d) xs

  pub All-map :
      {P Q : Entry T → Type 0} (xs : List (Entry T))
      → ((x : Entry T) → P x → Q x)
      → All P xs
      → All Q xs
  All-map [] f h = tt
  All-map (x ∷ xs) f (h, hs) = (f x h, All-map xs f hs)

  -- An entry that is not reported is apart from all that are hidden.
  pub Hidden-Apart :
      (d : Deletions) (xs : List (Entry T)) (e : Entry T)
      → IsSorted d.map
      → Hidden d xs
      → is_deleted e.path d ≡ none
      → All (λ x. Apart x e) xs
  Hidden-Apart d xs e s h none_eq =
      All-map xs
        (λ x k bare same.
          hidden-is_deleted e.path d s (subst IsBare same bare)
            (subst (λ p. IsHidden p d) same (k bare)) none_eq)
        h

  -- Above the lowest layer: what was written is distinct and hidden.
  pub record Upper (q : Squash (List (Entry T))) : Type 0 where
    pub sorted : IsSorted q.deletions.map
    pub hidden : Hidden q.deletions q.cb
    pub distinct : DistinctBare q.cb

  Upper-emit :
      (i : ℕ) (q : Squash (List (Entry T))) (e : Entry T) (o : Option DeletionReason)
      → Upper q
      → is_deleted e.path q.deletions ≡ o
      → Succeeds Upper (after_deleted collect (suc i) q e o)
  unfolding after_deleted store_seen
  Upper-emit i q e (some reason) h k = record {
    sorted = h.sorted;
    hidden = h.hidden;
    distinct = h.distinct;
  }
  Upper-emit i q e none h k = record {
    sorted = insert_seen-IsSorted e.path q.deletions h.sorted;
    hidden =
        All-append _ q.cb (e ∷ [])
          (All-map q.cb
            (λ x hid bare. insert_seen-keeps x.path e.path q.deletions h.sorted (hid bare))
            h.hidden)
          ((λ bare. insert_seen-IsHidden e.path q.deletions h.sorted), tt);
    distinct =
        DistinctBare-snoc q.cb e h.distinct (Hidden-Apart q.deletions q.cb e h.sorted h.hidden k);
  }

  Upper-mark :
      (i : ℕ) (q : Squash (List (Entry T))) (e : Entry T) (w : Option Whiteout)
      → Upper q
      → Succeeds Upper (after_whiteout collect (suc i) q e w)
  unfolding after_whiteout store push_whiteout push_opaque
  Upper-mark i q e (some (Whiteout.whiteout p)) h = record {
    sorted = h.sorted;
    hidden = h.hidden;
    distinct = h.distinct;
  }
  Upper-mark i q e (some (Whiteout.opaque p)) h = record {
    sorted = h.sorted;
    hidden = h.hidden;
    distinct = h.distinct;
  }
  Upper-mark i q e none h = Upper-emit i q e _ h refl

  pub Upper-layer :
      (i : ℕ) (q : Squash (List (Entry T))) (layer : Result Error (List (Result Error (Entry T))))
      → IsReadable layer
      → Upper q
      → Succeeds Upper (squash_layer collect (suc i) q layer)
  unfolding close
  Upper-layer i q layer r h =
      squash_layer-Succeeds Upper (suc i) q layer
        (λ q' e k. squash_entry-Succeeds Upper (suc i) q' e (λ w. Upper-mark i q' e w k))
        (λ q' k. record {
          sorted = end_of_layer-IsSorted q'.deletions k.sorted;
          hidden =
              All-map q'.cb
                (λ x hid bare. end_of_layer-keeps x.path q'.deletions k.sorted (hid bare)) k.hidden;
          distinct = k.distinct;
        })
        r h
