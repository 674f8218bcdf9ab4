-- ===== src/Squash/Deletions/Reasons.antt =====
-- What `is_deleted` reports.
use program_explorer.Prelude.{
  ℕ, ◌≡◌, inl, inr, refl, sym, ap, ◌∙◌, arith, true, false, Option, none, some, [], ◌∷◌, ◌++◌,
  Bool-cases, Option-cases, All,
}
use mathlib.Core.Path.{subst}
use program_explorer.Prelude.Bytes.{Bytes, bytes_eq, bytes_eq_iff, bytes_eq_refl}
use program_explorer.PathBuf.{slash}
use program_explorer.Squash.Order.{Lt, Lt-irrefl, Lt-trans, Lt-append}
use program_explorer.Squash.Deletions.{
  DeletionState, DeletionReason, whiteout, whiteout_dir, opaque, shadowed, DeletionMap, Deletions,
  floor, strip_prefix, begins_with_slash, os_str_starts_with, without_trailing_slash, reason_of,
  is_deleted,
}
use program_explorer.Squash.Deletions.Keys.{
  IsSorted, lookup, floor-lookup, floor-absent, not_lt, ne_of_lt, before_key,
}

-- A path of which `without_trailing_slash` leaves every byte.
abbrev pub IsBare : Bytes → Type 0
IsBare p = without_trailing_slash p ≡ p

-- The path lies below the directory `key`.
pub record IsBelow (p key : Bytes) : Type 0 where
  pub rest : Bytes
  pub path_eq : p ≡ key ++ slash ∷ rest

pub strip_prefix-eq :
    (x prefix rest : Bytes) → strip_prefix x prefix ≡ some rest → x ≡ prefix ++ rest
unfolding strip_prefix
strip_prefix-eq x [] rest h = ground arith
strip_prefix-eq [] (p ∷ prefix) rest h = absurd (cc)
strip_prefix-eq (b ∷ x) (p ∷ prefix) rest h = ground (arith, strip_prefix-eq x prefix rest)

pub strip_prefix-append : (prefix rest : Bytes) → strip_prefix (prefix ++ rest) prefix ≡ some rest
unfolding strip_prefix
strip_prefix-append [] rest = refl
strip_prefix-append (p ∷ prefix) rest = ground (arith, strip_prefix-append prefix rest)

starts_with-IsBelow : (p key : Bytes) → os_str_starts_with p key ≡ true → IsBelow p key
unfolding os_str_starts_with
starts_with-IsBelow p key h = go (strip_prefix p key) refl
  where
    go : (o : Option Bytes) → strip_prefix p key ≡ o → IsBelow p key
    go none e = absurd (cc (ap begins_with_slash e))
    go (some []) e = absurd (cc (ap begins_with_slash e))
    go (some (b ∷ rest)) e = record {
      rest = rest;
      path_eq =
          strip_prefix-eq p key (b ∷ rest) e
          ∙ ap (λ (x : ℕ). key ++ x ∷ rest) (ground (arith, ap begins_with_slash e));
    }

pub IsBelow-starts_with : (p key : Bytes) → IsBelow p key → os_str_starts_with p key ≡ true
unfolding os_str_starts_with begins_with_slash
IsBelow-starts_with p key b = rw (b.path_eq, strip_prefix-append key (slash ∷ b.rest))

-- A path below a directory is another path.
IsBelow-ne : (p key : Bytes) → IsBelow p key → bytes_eq key p ≡ false
IsBelow-ne p key b = elim (Bool-cases (bytes_eq key p)) [
  | inl e ↦ absurd (
      Lt-irrefl key
        (subst (Lt key) (sym ((bytes_eq_iff key p).0 e ∙ b.path_eq)) (Lt-append key b.rest slash)))
  | inr e ↦ e
]

-- A path that is in the map itself: what its state says. An opaque directory is not deleted itself.
unfoldable pub exactly : DeletionState → Option DeletionReason
exactly whiteout = some whiteout
exactly opaque = none
exactly shadowed = some shadowed

pub is_deleted-lookup :
    (p : Bytes) (d : Deletions) (s : DeletionState)
    → IsSorted d.map
    → IsBare p
    → lookup p d.map ≡ some s
    → is_deleted p d ≡ exactly s
unfolding is_deleted exactly reason_of
is_deleted-lookup p d whiteout h bare e = rw (bare, floor-lookup p d.map _ h e, bytes_eq_refl p)
is_deleted-lookup p d opaque h bare e = rw (bare, floor-lookup p d.map _ h e, bytes_eq_refl p)
is_deleted-lookup p d shadowed h bare e = rw (bare, floor-lookup p d.map _ h e, bytes_eq_refl p)

pub lookup-floor :
    (p : Bytes) (m : DeletionMap) (key : Bytes) (s : DeletionState)
    → IsSorted m
    → floor p m ≡ some (key, s)
    → lookup key m ≡ some s
unfolding floor lookup
lookup-floor p [] key s h e = absurd (cc)
lookup-floor p ((k, t) ∷ m) key s (hk, hm) e = elim (Option-cases (floor p m)) [
  | inl q ↦ ground (arith, bytes_eq_iff k key)
  | inr ((k', s'), q) ↦
      let found : lookup key m ≡ some s = lookup-floor p m key s hm (ground arith) in
      rw (ne_of_lt k key (before_key k key m s hk found)) found
]

-- The rows of the source's table: the path `p`, the key that was found and its state, and the
-- reason.
pub data Explains (p key : Bytes) : DeletionState → DeletionReason → Type 0 where
  whiteout_exact : key ≡ p → Explains p key DeletionState.whiteout DeletionReason.whiteout
  whiteout_child : IsBelow p key → Explains p key DeletionState.whiteout DeletionReason.whiteout_dir
  opaque_child : IsBelow p key → Explains p key DeletionState.opaque DeletionReason.opaque
  shadowed_exact : key ≡ p → Explains p key DeletionState.shadowed DeletionReason.shadowed

reason_of-Explains :
    (p key : Bytes) (s : DeletionState) (r : DeletionReason)
    → reason_of p (some (key, s)) ≡ some r
    → Explains p key s r
unfolding reason_of
reason_of-Explains p key whiteout r h = elim (Bool-cases (bytes_eq key p)) [
  | inl e ↦
      subst (Explains p key whiteout) (ground arith) (whiteout_exact ((bytes_eq_iff key p).0 e))
  | inr e ↦ elim (Bool-cases (os_str_starts_with p key)) [
    | inl b ↦
        subst (Explains p key whiteout) (ground arith)
          (whiteout_child (starts_with-IsBelow p key b))
    | inr b ↦ absurd (ground arith)
  ]
]
reason_of-Explains p key opaque r h = elim (Bool-cases (os_str_starts_with p key)) [
  | inl b ↦
      subst (Explains p key opaque) (ground arith) (opaque_child (starts_with-IsBelow p key b))
  | inr b ↦ absurd (ground arith)
]
reason_of-Explains p key shadowed r h = elim (Bool-cases (bytes_eq key p)) [
  | inl e ↦
      subst (Explains p key shadowed) (ground arith) (shadowed_exact ((bytes_eq_iff key p).0 e))
  | inr e ↦ absurd (ground arith)
]

-- Every report has its reason: where `is_deleted` gives one, the map holds a path whose state and
-- place, exactly the path or a directory above it, are the row of the table for that reason.
pub is_deleted-Explains :
    (p : Bytes) (d : Deletions) (r : DeletionReason)
    → IsSorted d.map
    → is_deleted p d ≡ some r
    → (key : Bytes) × (s : DeletionState) × (lookup key d.map ≡ some s)
      × Explains (without_trailing_slash p) key s r
unfolding is_deleted
is_deleted-Explains p d r h e = go (floor (without_trailing_slash p) d.map) refl
  where
    go :
        (o : Option (Bytes × DeletionState))
        → floor (without_trailing_slash p) d.map ≡ o
        → (key : Bytes) × (s : DeletionState) × (lookup key d.map ≡ some s)
          × Explains (without_trailing_slash p) key s r
    go none q = absurd (cc (ap (reason_of (without_trailing_slash p)) q))
    go (some (key, s)) q = (
      key,
      s,
      lookup-floor (without_trailing_slash p) d.map key s h q,
      reason_of-Explains (without_trailing_slash p) key s r
          (sym (ap (reason_of (without_trailing_slash p)) q) ∙ e),
    )

-- No key of the map lies behind `key` and not behind `p`.
abbrev pub NoKeyBetween : Bytes → Bytes → DeletionMap → Type 0
NoKeyBetween key p m = All (λ e. Lt key e.0 → Lt p e.0) m

All-behind :
    (key p : Bytes) (m : DeletionMap)
    → All (λ e. Lt key e.0) m
    → NoKeyBetween key p m
    → All (λ e. Lt p e.0) m
All-behind key p [] h b = tt
All-behind key p ((k, t) ∷ m) (h, hs) (b, bs) = (b h, All-behind key p m hs bs)

floor-none_between :
    (p key : Bytes) (m : DeletionMap) (s : DeletionState)
    → IsSorted m
    → lookup key m ≡ some s
    → Lt key p
    → NoKeyBetween key p m
    → floor p m ≡ some (key, s)
unfolding floor lookup
floor-none_between p key [] s h e l b = absurd (cc)
floor-none_between p key ((k, t) ∷ m) s (hk, hm) e l (b, bs) = elim (Bool-cases (bytes_eq k key)) [
  | inl q ↦
      let same_key : k ≡ key = (bytes_eq_iff k key).0 q in
      let behind = All-behind key p m (subst (λ x. All (λ e. Lt x e.0) m) same_key hk) bs in
      rw (same_key, not_lt p key l, floor-absent p m behind) (ground (arith, same_key))
  | inr q ↦
      let rest : lookup key m ≡ some s = ground arith in
      let l' : Lt k p = Lt-trans k key p (before_key k key m s hk rest) l in
      rw (not_lt p k l', floor-none_between p key m s hm rest l bs)
]

-- A path below a directory that is whited out, or opaque, is reported, whether or not it is spelled
-- with a trailing slash, provided that the map, in its order, holds no key between the directory and
-- the path without that slash.
pub is_deleted-below :
    (p key : Bytes) (d : Deletions)
    → IsSorted d.map
    → IsBelow (without_trailing_slash p) key
    → NoKeyBetween key (without_trailing_slash p) d.map
    → ((lookup key d.map ≡ some whiteout) → is_deleted p d ≡ some whiteout_dir)
      × ((lookup key d.map ≡ some opaque) → is_deleted p d ≡ some opaque)
unfolding is_deleted reason_of
is_deleted-below p key d h b n =
    let q : Bytes = without_trailing_slash p in
    let l : Lt key q = subst (Lt key) (sym b.path_eq) (Lt-append key b.rest slash) in
    (
      λ e. rw (
        floor-none_between q key d.map whiteout h e l n,
        IsBelow-ne q key b,
        IsBelow-starts_with q key b,
      ),
      λ e. rw (
        floor-none_between q key d.map opaque h e l n,
        IsBelow-ne q key b,
        IsBelow-starts_with q key b,
      ),
    )

-- The nearest key that is not behind the path decides alone: if a path that was only seen lies
-- there, the path is not reported, whatever the map holds of the directories above it.
pub is_deleted-seen_before :
    (p seen : Bytes) (d : Deletions)
    → IsSorted d.map
    → IsBare p
    → lookup seen d.map ≡ some shadowed
    → Lt seen p
    → NoKeyBetween seen p d.map
    → is_deleted p d ≡ none
unfolding is_deleted reason_of
is_deleted-seen_before p seen d h bare e l n =
    rw (bare, floor-none_between p seen d.map shadowed h e l n, ne_of_lt seen p l)
