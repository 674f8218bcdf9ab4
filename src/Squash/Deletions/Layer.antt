-- ===== src/Squash/Deletions/Layer.antt =====
-- What the end of a layer adds, and what stays as it was.
use program_explorer.Prelude.{
  ◌≡◌, refl, ap, ◌∙◌, arith, Bool, true, false, Option, some, List, [], ◌∷◌, ◌||◌, if◌then◌else◌,
}
use program_explorer.Prelude.Bytes.{Bytes, bytes_eq, bytes_eq_iff}
use program_explorer.Squash.Deletions.{
  DeletionState, whiteout, opaque, Deletions, merge, insert_map, insert, insert_all, end_of_layer,
}
use program_explorer.Squash.Deletions.Keys.{
  IsSorted, lookup, merge_with, insert_map-IsSorted, lookup-insert_map,
}

-- Merging is idempotent, commutative and associative: the order in which layers' marks are merged
-- does not matter.
pub merge_laws :
    (a b c : DeletionState)
    → (merge a a ≡ a) × (merge a b ≡ merge b a) × (merge (merge a b) c ≡ merge a (merge b c))
unfolding merge
merge_laws whiteout whiteout whiteout = (refl, refl, refl)
merge_laws whiteout whiteout opaque = (refl, refl, refl)
merge_laws a b c = ground arith

unfoldable pub contains : List Bytes → Bytes → Bool
contains [] q = false
contains (x ∷ xs) q = bytes_eq x q || contains xs q

-- The state behind a mark, if there is one.
unfoldable pub marked : Bool → DeletionState → Option DeletionState → Option DeletionState
marked b reason old = if b then some (merge_with old reason) else old

marked_twice :
    (b c : Bool) (reason : DeletionState) (old : Option DeletionState)
    → marked c reason (marked b reason old) ≡ marked (b || c) reason old
unfolding marked merge_with merge
marked_twice true true whiteout (some whiteout) = refl
marked_twice b c reason old = ground arith

insert_all-IsSorted :
    (xs : List Bytes) (reason : DeletionState) (d : Deletions)
    → IsSorted d.map
    → IsSorted (insert_all xs reason d).map
unfolding insert_all insert
insert_all-IsSorted [] reason d h = h
insert_all-IsSorted (x ∷ xs) reason d h =
    insert_all-IsSorted xs reason (record d { map = insert_map x reason d.map })
      (insert_map-IsSorted x reason d.map h)

lookup-insert_all :
    (xs : List Bytes) (reason : DeletionState) (d : Deletions) (q : Bytes)
    → IsSorted d.map
    → lookup q (insert_all xs reason d).map ≡ marked (contains xs q) reason (lookup q d.map)
unfolding insert_all insert contains
lookup-insert_all [] reason d q h = unfold marked in refl
lookup-insert_all (x ∷ xs) reason d q h =
    lookup-insert_all xs reason (record d { map = insert_map x reason d.map }) q
      (insert_map-IsSorted x reason d.map h)
    ∙ ap (marked (contains xs q) reason) (first ∙ refl)
    ∙ marked_twice (bytes_eq x q) (contains xs q) reason (lookup q d.map)
  where
    first : lookup q (insert_map x reason d.map) ≡ marked (bytes_eq x q) reason (lookup q d.map)
    first =
        unfold marked in (lookup-insert_map q x reason d.map h ∙ ground (arith, bytes_eq_iff x q))

insert_all-queues :
    (xs : List Bytes) (reason : DeletionState) (d : Deletions)
    → ((insert_all xs reason d).whiteout_q ≡ d.whiteout_q)
      × ((insert_all xs reason d).opaque_q ≡ d.opaque_q)
unfolding insert_all insert
insert_all-queues [] reason d = (refl, refl)
insert_all-queues (x ∷ xs) reason d =
    insert_all-queues xs reason (record d { map = insert_map x reason d.map })

pub end_of_layer-IsSorted : (d : Deletions) → IsSorted d.map → IsSorted (end_of_layer d).map
unfolding end_of_layer
end_of_layer-IsSorted d h =
    let d1 : Deletions = insert_all d.whiteout_q whiteout (record d { whiteout_q = [] }) in
    insert_all-IsSorted d1.opaque_q opaque (record d1 { opaque_q = [] })
      (insert_all-IsSorted d.whiteout_q whiteout (record d { whiteout_q = [] }) h)

-- The end of a layer: both queues are empty behind it, the keys are in order, and the state of every
-- path is its old one, merged with `Whiteout` if the layer whited it out and then with `Opaque` if
-- the layer made it opaque; a path without a mark keeps its state.
pub end_of_layer_lem :
    (d : Deletions)
    → IsSorted d.map
    → ((end_of_layer d).whiteout_q ≡ [])
      × ((end_of_layer d).opaque_q ≡ [])
      × IsSorted (end_of_layer d).map
      × ((q : Bytes)
          → lookup q (end_of_layer d).map
            ≡ marked
                (contains d.opaque_q q)
                opaque
                (marked (contains d.whiteout_q q) whiteout (lookup q d.map)))
unfolding end_of_layer
end_of_layer_lem d h =
    let d0 : Deletions = record d { whiteout_q = [] } in
    let d1 : Deletions = insert_all d.whiteout_q whiteout d0 in
    let e = insert_all-queues d.whiteout_q whiteout d0 in
    (
      (insert_all-queues d1.opaque_q opaque (record d1 { opaque_q = [] })).0 ∙ e.0,
      (insert_all-queues d1.opaque_q opaque (record d1 { opaque_q = [] })).1,
      end_of_layer-IsSorted d h,
      λ q.
          lookup-insert_all d1.opaque_q opaque (record d1 { opaque_q = [] }) q
            (insert_all-IsSorted d.whiteout_q whiteout d0 h)
          ∙ ap (λ xs. marked (contains xs q) opaque (lookup q d1.map)) e.1
          ∙ ap (marked (contains d.opaque_q q) opaque)
              (lookup-insert_all d.whiteout_q whiteout d0 q h),
    )
