-- ===== src/Squash/Deletions/Seen.antt =====
-- Paths that are in the squashed image already, and what the map forgets.
use program_explorer.Prelude.{
  ◌≡◌, ◌≢◌, inl, inr, refl, sym, ap, ◌∙◌, arith, Bool, true, false, Option, none, some, [], ◌∷◌,
  ◌++◌, List, Bool-cases, Option-cases,
}
use mathlib.Core.Path.{subst}
use program_explorer.Prelude.Bytes.{Bytes, bytes_eq, bytes_eq_iff, bytes_eq_refl}
use program_explorer.PathBuf.{slash}
use program_explorer.Squash.Order.{Lt, Lt-append, Lt-irrefl, Lt-front, Lt-trans, Lt-bytes_lt}
use program_explorer.Squash.Deletions.{
  floor, reason_of, DeletionState, whiteout, opaque, shadowed, Deletions, merge, insert_map, insert,
  insert_all, insert_seen, is_deleted, end_of_layer, default, without_trailing_slash, push_opaque,
  push_whiteout,
}
use program_explorer.Squash.Deletions.Keys.{
  IsSorted, lookup, merge_with, insert_map-IsSorted, lookup-insert_map, ne_of_lt,
}
use program_explorer.Squash.Deletions.Layer.{marked, contains, end_of_layer_lem}
use program_explorer.Squash.Deletions.Reasons.{
  IsBare, exactly, is_deleted-lookup, is_deleted-seen_before, is_deleted-below, IsBelow,
  NoKeyBetween,
}

-- The map holds the path, and not only as an opaque directory.
unfoldable pub hides : Option DeletionState → Bool
hides none = false
hides (some whiteout) = true
hides (some opaque) = false
hides (some shadowed) = true

abbrev pub IsHidden : Bytes → Deletions → Type 0
IsHidden p d = hides (lookup p d.map) ≡ true

merge-hides :
    (b : Bool) (reason : DeletionState) (old : Option DeletionState)
    → hides old ≡ true
    → hides (marked b reason old) ≡ true
unfolding hides marked merge_with merge
merge-hides true whiteout (some whiteout) h = refl
merge-hides b reason old h = ground arith

pub hidden-is_deleted :
    (p : Bytes) (d : Deletions) → IsSorted d.map → IsBare p → IsHidden p d → is_deleted p d ≢ none
unfolding hides exactly
hidden-is_deleted p d h bare k e = elim (Option-cases (lookup p d.map)) [
  | inl q ↦ absurd (cc (sym k ∙ ap hides q))
  | inr (s, q) ↦ decide s q
]
  where
    decide : (s : DeletionState) → lookup p d.map ≡ some s → ⊥
    decide whiteout q = cc (sym (is_deleted-lookup p d whiteout h bare q) ∙ e)
    decide opaque q = cc (sym k ∙ ap hides q)
    decide shadowed q = cc (sym (is_deleted-lookup p d shadowed h bare q) ∙ e)

seen-hides : (o : Option DeletionState) → hides (some (merge_with o shadowed)) ≡ true
unfolding hides merge_with merge
seen-hides none = refl
seen-hides (some whiteout) = refl
seen-hides (some opaque) = refl
seen-hides (some shadowed) = refl

pub insert_seen-IsHidden :
    (p : Bytes) (d : Deletions) → IsSorted d.map → IsHidden p (insert_seen p d)
unfolding insert_seen insert
insert_seen-IsHidden p d h =
    ap hides (lookup-insert_map p p shadowed d.map h ∙ rw (bytes_eq_refl p) refl)
    ∙ seen-hides (lookup p d.map)

pub insert_seen-IsSorted :
    (p : Bytes) (d : Deletions) → IsSorted d.map → IsSorted (insert_seen p d).map
unfolding insert_seen insert
insert_seen-IsSorted p d h = insert_map-IsSorted p shadowed d.map h

pub insert_seen-keeps :
    (p q : Bytes) (d : Deletions) → IsSorted d.map → IsHidden p d → IsHidden p (insert_seen q d)
unfolding insert_seen insert
insert_seen-keeps p q d h k = elim (Bool-cases (bytes_eq q p)) [
  | inl e ↦
      subst (λ x. IsHidden p (insert_seen x d)) (sym ((bytes_eq_iff q p).0 e))
        (insert_seen-IsHidden p d h)
  | inr e ↦ ap hides (lookup-insert_map p q shadowed d.map h ∙ rw e refl) ∙ k
]

pub end_of_layer-keeps :
    (p : Bytes) (d : Deletions) → IsSorted d.map → IsHidden p d → IsHidden p (end_of_layer d)
end_of_layer-keeps p d h k =
    ap hides ((end_of_layer_lem d h).3 p)
    ∙ merge-hides (contains d.opaque_q p) opaque _
        (merge-hides (contains d.whiteout_q p) whiteout (lookup p d.map) k)

-- What squashing does to the deletions: a path that is seen, a mark of either kind, and the end of a
-- layer.
pub data Change : Type 0 where
  seen whited_out opaqued : Bytes → Change
  layer_ended : Change

unfoldable pub apply : Change → Deletions → Deletions
apply (seen p) d = insert_seen p d
apply (whited_out p) d = push_whiteout p d
apply (opaqued p) d = push_opaque p d
apply layer_ended d = end_of_layer d

unfoldable pub apply_all : List Change → Deletions → Deletions
apply_all [] d = d
apply_all (c ∷ cs) d = apply_all cs (apply c d)

apply-keeps :
    (p : Bytes) (c : Change) (d : Deletions)
    → IsSorted d.map
    → IsHidden p d
    → IsSorted (apply c d).map × IsHidden p (apply c d)
unfolding apply push_whiteout push_opaque
apply-keeps p (seen q) d h k = (insert_seen-IsSorted q d h, insert_seen-keeps p q d h k)
apply-keeps p (whited_out q) d h k = (h, k)
apply-keeps p (opaqued q) d h k = (h, k)
apply-keeps p layer_ended d h k = ((end_of_layer_lem d h).2, end_of_layer-keeps p d h k)

apply_all-keeps :
    (p : Bytes) (cs : List Change) (d : Deletions)
    → IsSorted d.map
    → IsHidden p d
    → IsSorted (apply_all cs d).map × IsHidden p (apply_all cs d)
unfolding apply_all
apply_all-keeps p [] d h k = (h, k)
apply_all-keeps p (c ∷ cs) d h k =
    let (h', k') = apply-keeps p c d h k in apply_all-keeps p cs (apply c d) h' k'

-- A path without a trailing slash whose entry was written to the image is reported from there on,
-- with or without a slash behind it: behind every sequence of paths that are seen, of marks, and of
-- ends of layers.
pub insert_seen-is_deleted :
    (p q : Bytes) (d : Deletions) (cs : List Change)
    → IsSorted d.map
    → IsBare p
    → without_trailing_slash q ≡ p
    → is_deleted q (apply_all cs (insert_seen p d)) ≢ none
unfolding is_deleted
insert_seen-is_deleted p q d cs h bare e =
    let start : Deletions = insert_seen p d in
    let (sorted, hid) =
      apply_all-keeps p cs start (insert_seen-IsSorted p d h) (insert_seen-IsHidden p d h) in
    λ none_eq. hidden-is_deleted p (apply_all cs start) sorted bare hid (rw bare (rw e at none_eq))

-- The deletions behind a layer that makes a directory opaque and holds an entry of it.
opaque_layer : Bytes → Bytes → Deletions
opaque_layer dir a = record {
  map = (dir, opaque) ∷ (dir ++ slash ∷ a, shadowed) ∷ [];
  whiteout_q = [];
  opaque_q = [];
}

end_of_layer-opaque :
    (dir a : Bytes)
    → IsBare dir
    → end_of_layer (insert_seen (dir ++ slash ∷ a) (push_opaque dir default)) ≡ opaque_layer dir a
unfolding end_of_layer push_opaque insert_seen insert insert_all insert_map opaque_layer
end_of_layer-opaque dir a bare =
    rw (bare, Lt-bytes_lt dir (dir ++ slash ∷ a) (Lt-append dir a slash))

opaque_layer-forgets :
    (dir a b c : Bytes)
    → Lt c a
    → Lt a b
    → IsBare (dir ++ slash ∷ b)
    → IsBare (dir ++ slash ∷ c)
    → let d = opaque_layer dir a in
      (lookup dir d.map ≡ some opaque)
      × (is_deleted (dir ++ slash ∷ c) d ≡ some opaque)
      × (is_deleted (dir ++ slash ∷ b) d ≡ none)
unfolding opaque_layer lookup
opaque_layer-forgets dir a b c ca ab bare_b bare_c =
    let d : Deletions = opaque_layer dir a in
    let dir_a : Lt dir (dir ++ slash ∷ a) = Lt-append dir a slash in
    let a_b : Lt (dir ++ slash ∷ a) (dir ++ slash ∷ b) =
      Lt-front dir (slash ∷ a) (slash ∷ b) (inr (refl, ab)) in
    let found : lookup dir d.map ≡ some opaque = rw (bytes_eq_refl dir) refl in
    (
      found,
      (is_deleted-below (dir ++ slash ∷ c) dir d ((dir_a, tt), (tt, tt))
            (subst (λ q. IsBelow q dir) (sym bare_c) (record { rest = c; path_eq = refl }))
            (subst (λ q. NoKeyBetween dir q d.map) (sym bare_c)
              (
                λ l. absurd (Lt-irrefl dir l),
                (λ l. Lt-front dir (slash ∷ c) (slash ∷ a) (inr (refl, ca)), tt),
              ))).1
          found,
      is_deleted-seen_before (dir ++ slash ∷ b) (dir ++ slash ∷ a) d ((dir_a, tt), (tt, tt)) bare_b
          (rw (ne_of_lt dir (dir ++ slash ∷ a) dir_a, bytes_eq_refl (dir ++ slash ∷ a)) refl) a_b
          (
            λ l. absurd (Lt-irrefl dir (Lt-trans dir (dir ++ slash ∷ a) dir dir_a l)),
            (λ l. absurd (Lt-irrefl (dir ++ slash ∷ a) l), tt),
          ),
    )

-- An opaque directory whose own layer holds an entry: behind the end of that layer the earlier
-- layers' entries of the directory that stand behind the layer's own entry are not reported, though
-- the opaque mark is in the map, while those before it are.
pub opaque_forgotten :
    (dir a b c : Bytes)
    → Lt c a
    → Lt a b
    → IsBare (dir ++ slash ∷ b)
    → IsBare (dir ++ slash ∷ c)
    → IsBare dir
    → let d = end_of_layer (insert_seen (dir ++ slash ∷ a) (push_opaque dir default)) in
      (lookup dir d.map ≡ some opaque)
      × (is_deleted (dir ++ slash ∷ c) d ≡ some opaque)
      × (is_deleted (dir ++ slash ∷ b) d ≡ none)
opaque_forgotten dir a b c ca ab bare_b bare_c bare =
    rw (end_of_layer-opaque dir a bare) (opaque_layer-forgets dir a b c ca ab bare_b bare_c)

without_trailing_slash-slash : (p : Bytes) → without_trailing_slash (p ++ slash ∷ []) ≡ p
unfolding without_trailing_slash
without_trailing_slash-slash [] = refl
without_trailing_slash-slash (b ∷ []) = refl
without_trailing_slash-slash (b ∷ c ∷ p) = ap (λ t. b ∷ t) (without_trailing_slash-slash (c ∷ p))

-- A path with a trailing slash, as an archive spells a directory: after it was seen it is not
-- reported, neither at once nor behind the end of the layer.
pub insert_seen-slash :
    (p : Bytes)
    → let seen = insert_seen (p ++ slash ∷ []) default in
      (is_deleted (p ++ slash ∷ []) seen ≡ none)
      × (is_deleted (p ++ slash ∷ []) (end_of_layer seen) ≡ none)
unfolding insert_seen insert insert_map end_of_layer insert_all is_deleted floor reason_of
insert_seen-slash p =
    let l = Lt-bytes_lt p (p ++ slash ∷ []) (Lt-append p [] slash) in
    (rw (without_trailing_slash-slash p, l) refl, rw (without_trailing_slash-slash p, l) refl)
