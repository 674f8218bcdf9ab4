-- ===== src/Squash/Deletions/Keys.antt =====
-- The map of deletions as a function of the path, and that its keys stay in order.
use program_explorer.Prelude.{
  ◌≡◌, inl, inr, refl, arith, false, Option, none, some, [], ◌∷◌, All, Bool-cases, if◌then◌else◌,
}
use mathlib.Core.Path.{subst}
use program_explorer.Prelude.Bytes.{Bytes, bytes_eq, bytes_eq_iff, bytes_eq_refl}
use program_explorer.Squash.Order.{
  bytes_lt, Lt, Lt-bytes_lt, bytes_lt-Lt, Lt-irrefl, Lt-trans, before, same, after, compare,
}
use program_explorer.Squash.Deletions.{DeletionState, DeletionMap, merge, insert_map, floor}

-- Every key stands before the keys behind it.
abbrev pub IsSorted : DeletionMap → Type 0
IsSorted [] = Unit
IsSorted ((key, state) ∷ m) = All (λ e. Lt key e.0) m × IsSorted m

unfoldable pub lookup : Bytes → DeletionMap → Option DeletionState
lookup p [] = none
lookup p ((key, state) ∷ m) = if bytes_eq key p then some state else lookup p m

-- The state that a path has after one more: merged with the old one.
unfoldable pub merge_with : Option DeletionState → DeletionState → DeletionState
merge_with none new = new
merge_with (some old) new = merge old new

pub not_lt : (a b : Bytes) → Lt b a → bytes_lt a b ≡ false
not_lt a b h = elim (Bool-cases (bytes_lt a b)) [
  | inl e ↦ absurd (Lt-irrefl a (Lt-trans a b a (bytes_lt-Lt a b e) h))
  | inr e ↦ e
]

pub not_lt_refl : (a : Bytes) → bytes_lt a a ≡ false
not_lt_refl a = elim (Bool-cases (bytes_lt a a)) [
  | inl e ↦ absurd (Lt-irrefl a (bytes_lt-Lt a a e))
  | inr e ↦ e
]

pub ne_of_lt : (a b : Bytes) → Lt a b → bytes_eq a b ≡ false
ne_of_lt a b h = elim (Bool-cases (bytes_eq a b)) [
  | inl e ↦ absurd (Lt-irrefl b (subst (λ x. Lt x b) ((bytes_eq_iff a b).0 e) h))
  | inr e ↦ e
]

pub ne_of_gt : (a b : Bytes) → Lt b a → bytes_eq a b ≡ false
ne_of_gt a b h = elim (Bool-cases (bytes_eq a b)) [
  | inl e ↦ absurd (Lt-irrefl b (subst (λ x. Lt b x) ((bytes_eq_iff a b).0 e) h))
  | inr e ↦ e
]

All-after : (a b : Bytes) (m : DeletionMap) → Lt a b → All (λ e. Lt b e.0) m → All (λ e. Lt a e.0) m
All-after a b [] h k = tt
All-after a b ((c, s) ∷ m) h (k, ks) = (Lt-trans a b c h k, All-after a b m h ks)

All-insert :
    (a path : Bytes) (reason : DeletionState) (m : DeletionMap)
    → Lt a path
    → All (λ e. Lt a e.0) m
    → All (λ e. Lt a e.0) (insert_map path reason m)
unfolding insert_map
All-insert a path reason [] h k = (h, tt)
All-insert a path reason ((key, state) ∷ m) h (k, ks) = elim (Bool-cases (bytes_lt path key)) [
  | inl e ↦ rw e (h, (k, ks))
  | inr e ↦ elim (Bool-cases (bytes_eq key path)) [
    | inl d ↦ rw (e, d) (k, ks)
    | inr d ↦ rw (e, d) (k, All-insert a path reason m h ks)
  ]
]

pub insert_map-IsSorted :
    (path : Bytes) (reason : DeletionState) (m : DeletionMap)
    → IsSorted m
    → IsSorted (insert_map path reason m)
unfolding insert_map
insert_map-IsSorted path reason [] h = (tt, tt)
insert_map-IsSorted path reason ((key, state) ∷ m) (hk, hm) = elim (compare path key) [
  | before l ↦ rw (Lt-bytes_lt path key l) ((l, All-after path key m l hk), (hk, hm))
  | same e ↦ rw (e, not_lt_refl key, bytes_eq_refl key) (hk, hm)
  | after g ↦
      rw (not_lt path key g, ne_of_lt key path g)
        (All-insert key path reason m g hk, insert_map-IsSorted path reason m hm)
]

pub absent : (p : Bytes) (m : DeletionMap) → All (λ e. Lt p e.0) m → lookup p m ≡ none
unfolding lookup
absent p [] h = refl
absent p ((key, s) ∷ m) (h, hs) = rw (ne_of_gt key p h) (absent p m hs)

-- One more path changes the state of that path alone.
pub lookup-insert_map :
    (q path : Bytes) (reason : DeletionState) (m : DeletionMap)
    → IsSorted m
    → lookup q (insert_map path reason m)
      ≡ (if bytes_eq path q then some (merge_with (lookup path m) reason) else lookup q m)
unfolding lookup insert_map merge_with
lookup-insert_map q path reason [] h = ground arith
lookup-insert_map q path reason ((key, state) ∷ m) (hk, hm) = elim (compare path key) [
  | before l ↦
      rw (Lt-bytes_lt path key l, ne_of_gt key path l, absent path m (All-after path key m l hk))
  | same e ↦ rw (e, not_lt_refl key, bytes_eq_refl key) (ground arith)
  | after g ↦
      rw (not_lt path key g, ne_of_lt key path g)
        (ground (
          arith,
          lookup-insert_map q path reason m hm,
          ne_of_lt key path g,
          bytes_eq_iff key q,
          bytes_eq_iff path q,
          bytes_eq_iff key path,
        ))
]

pub floor-absent : (p : Bytes) (m : DeletionMap) → All (λ e. Lt p e.0) m → floor p m ≡ none
unfolding floor
floor-absent p [] h = refl
floor-absent p ((key, s) ∷ m) (h, hs) = rw (Lt-bytes_lt p key h)

pub before_key :
    (key p : Bytes) (m : DeletionMap) (s : DeletionState)
    → All (λ e. Lt key e.0) m
    → lookup p m ≡ some s
    → Lt key p
unfolding lookup
before_key key p [] s h e = absurd (cc)
before_key key p ((k, t) ∷ m) s (h, hs) e = elim (Bool-cases (bytes_eq k p)) [
  | inl d ↦ subst (λ x. Lt key x) ((bytes_eq_iff k p).0 d) h
  | inr d ↦ before_key key p m s hs (ground arith)
]

-- A path that is in the map is the last one that is not behind it.
pub floor-lookup :
    (p : Bytes) (m : DeletionMap) (s : DeletionState)
    → IsSorted m
    → lookup p m ≡ some s
    → floor p m ≡ some (p, s)
unfolding floor lookup
floor-lookup p [] s h e = absurd (cc)
floor-lookup p ((key, t) ∷ m) s (hk, hm) e = elim (Bool-cases (bytes_eq key p)) [
  | inl d ↦
      let same_key : key ≡ p = (bytes_eq_iff key p).0 d in
      rw
        (same_key, not_lt_refl p, floor-absent p m (subst (λ x. All (λ e. Lt x e.0) m) same_key hk))
        (ground (arith, same_key))
  | inr d ↦
      let rest : lookup p m ≡ some s = ground arith in
      rw (not_lt p key (before_key key p m s hk rest), floor-lookup p m s hm rest)
]
