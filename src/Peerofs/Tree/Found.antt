-- ===== src/Peerofs/Tree/Found.antt =====
-- What was added to the tree is found in it.
use program_explorer.Prelude.{
  ◌≡◌, refl, sym, ap, ◌∙◌, Bool, true, false, Option, none, some, List, [], ◌∷◌, ◌++◌, All,
  Bool-cases, inl, inr, not, map,
}
use program_explorer.Prelude.Bytes.{Bytes, bytes_eq, bytes_eq_refl, bytes_eq_iff, codes}
use program_explorer.Prelude.Result.{ok}
use program_explorer.PathBuf.{dot, join_slash, is_absolute, starts_with_cur_dir, need_sep}
use program_explorer.PathBuf.Plain.{
  IsPlain, is_absolute-join, starts_with_cur_dir-join, split-join, is_blank-plain, need_sep-join,
}
use program_explorer.PathBuf.Components.{Component, normal, components, parts}
use program_explorer.Squash.Order.{bytes_lt}
use program_explorer.Peerofs.Tree.{
  Dirent, Dir, Children, file, symlink, dir, here, up, with_children, end, child, find, put, put_in,
  children, Done, enter, enter_found, descend, insert_entry, get_entry, get, insert, lookup_impl,
  default_dir,
}

-- The components of a path of names.
abbrev pub names_path : List Bytes → Bytes → List Component
names_path [] n = normal n ∷ []
names_path (m ∷ ms) n = normal m ∷ names_path ms n

module _ {M F S : Type 0} where
  find-put : (n : Bytes) (e : Dirent M F S) (cs : Children M F S) → find n (put n e cs) ≡ some e
  unfolding find put
  find-put n e end = rw (bytes_eq_refl n) refl
  find-put n e (child key d cs) = elim (Bool-cases (bytes_eq key n)) [
    | inl k ↦ rw (k, k) refl
    | inr k ↦ elim (Bool-cases (bytes_lt n key)) [
      | inl l ↦ rw (k, l, bytes_eq_refl n) refl
      | inr l ↦ rw (k, l, k) (find-put n e cs)
    ]
  ]

  find-put_in :
      (n : Bytes) (e : Dirent M F S) (d : Dir M F S) → find n (children (put_in n e d)) ≡ some e
  unfolding put_in
  find-put_in n e (with_children m cs) = find-put n e cs

  -- What a search makes of a directory into which another one was put back.
  enter-put_in :
      {A : Type 0} (n : Bytes) (x d : Dir M F S) (g : Dir M F S → Done M F S A)
      → (enter none n (put_in n (dir x) d) g).1 ≡ (g x).1
  unfolding enter enter_found
  enter-put_in n x d g = rw (find-put_in n (dir x) d) refl

  enter-found :
      (fresh : Dir M F S) (n : Bytes) (d : Dir M F S) (f : Dir M F S → Done M F S (Unit {0}))
      (g : Dir M F S → Done M F S (Option (Dirent M F S))) (e : Dirent M F S)
      → ((x : Dir M F S) → (f x).1 ≡ ok tt → (g (f x).0).1 ≡ ok (some e))
      → (enter (some fresh) n d f).1 ≡ ok tt
      → (enter none n (enter (some fresh) n d f).0 g).1 ≡ ok (some e)
  unfolding enter enter_found
  enter-found fresh n d f g e h k = go (find n (children d)) k
    where
      go :
          (o : Option (Dirent M F S))
          → (enter_found (some fresh) n d f o).1 ≡ ok tt
          → (enter none n (enter_found (some fresh) n d f o).0 g).1 ≡ ok (some e)
      go (some (dir x)) k = enter-put_in n (f x).0 d g ∙ h x k
      go (some (file x)) k = absurd (cc)
      go (some (symlink x)) k = absurd (cc)
      go (some here) k = absurd (cc)
      go (some up) k = absurd (cc)
      go none k = enter-put_in n (f fresh).0 d g ∙ h fresh k

  descend-found :
      (fresh : Dir M F S) (ms : List Bytes) (n : Bytes) (e : Dirent M F S) (d : Dir M F S)
      → (descend (some fresh) (names_path ms n) (insert_entry e) d).1 ≡ ok tt
      → (descend none
          (names_path ms n)
          get_entry
          (descend (some fresh) (names_path ms n) (insert_entry e) d).0).1
        ≡ ok (some e)
  unfolding descend
  descend-found fresh [] n e d h = ap (λ o. ok o) (find-put_in n e d)
  descend-found fresh (m ∷ []) n e d h =
      enter-found fresh m d (descend (some fresh) (names_path [] n) (insert_entry e))
        (descend none (names_path [] n) get_entry) e (λ x. descend-found fresh [] n e x) h
  descend-found fresh (m ∷ m' ∷ ms) n e d h =
      enter-found fresh m d (descend (some fresh) (names_path (m' ∷ ms) n) (insert_entry e))
        (descend none (names_path (m' ∷ ms) n) get_entry) e
        (λ x. descend-found fresh (m' ∷ ms) n e x) h

-- A plain name other than `..`.
abbrev pub IsName : Bytes → Type 0
IsName s = IsPlain s × (bytes_eq s (dot ∷ dot ∷ []) ≡ false)

All-IsPlain : (cs : List Bytes) → All IsName cs → All IsPlain cs
All-IsPlain [] h = tt
All-IsPlain (c ∷ cs) (h, hs) = (h.0, All-IsPlain cs hs)

parts-names : (cs : List Bytes) → All IsName cs → parts cs ≡ map normal cs
unfolding parts
parts-names [] h = refl
parts-names (c ∷ cs) (h, hs) = rw (is_blank-plain c h.0, h.1, parts-names cs hs) refl

names_path-map : (ms : List Bytes) (n : Bytes) → map normal (ms ++ n ∷ []) ≡ names_path ms n
names_path-map [] n = refl
names_path-map (m ∷ ms) n = ap (λ t. normal m ∷ t) (names_path-map ms n)

components-join :
    (c : Bytes) (cs : List Bytes)
    → All IsName (c ∷ cs)
    → components (join_slash (c ∷ cs)) ≡ map normal (c ∷ cs)
unfolding components
components-join c cs h =
    rw
      (
        is_absolute-join c cs h.0.0,
        starts_with_cur_dir-join c cs h.0.0,
        split-join c cs (All-IsPlain (c ∷ cs) h),
        parts-names (c ∷ cs) h,
      )
      refl

-- A path that a test tells apart is not equal.
unequal : (p q : Bytes) (t : Bytes → Bool) (b : Bool) → t p ≡ b → t q ≡ not b → bytes_eq p q ≡ false
unequal p q t b e f = elim (Bool-cases (bytes_eq p q)) [
  | inl k ↦ absurd (differs b (sym e ∙ ap t ((bytes_eq_iff p q).0 k) ∙ f))
  | inr k ↦ k
]
  where
    differs : (b : Bool) → b ≡ not b → ⊥
    differs true h = cc
    differs false h = cc

lookup_impl-join :
    {M F S A : Type 0} (create : Option (Dir M F S)) (c : Bytes) (cs : List Bytes)
    (f : Option Bytes → Dir M F S → Done M F S A) (root : Dir M F S)
    → All IsName (c ∷ cs)
    → lookup_impl create (join_slash (c ∷ cs)) f root ≡ descend create (map normal (c ∷ cs)) f root
unfolding lookup_impl
lookup_impl-join create c cs f root h =
    let plain = All-IsPlain (c ∷ cs) h in
    let p : Bytes = join_slash (c ∷ cs) in
    rw
      (
        unequal p [] need_sep true (need_sep-join c cs plain) (unfold need_sep in refl),
        unequal p (codes ".") starts_with_cur_dir false (starts_with_cur_dir-join c cs h.0.0)
            (unfold starts_with_cur_dir in refl),
        unequal p (codes "./") starts_with_cur_dir false (starts_with_cur_dir-join c cs h.0.0)
            (unfold starts_with_cur_dir in refl),
        unequal p (codes "/") is_absolute false (is_absolute-join c cs h.0.0)
            (unfold is_absolute in refl),
        components-join c cs h,
      )
      refl

descend_as :
    {M F S : Type 0} (fresh : Dir M F S) (ps qs : List Component) (e : Dirent M F S) (d : Dir M F S)
    → ps ≡ qs
    → ((descend (some fresh) qs (insert_entry e) d).1 ≡ ok tt
        → (descend none qs get_entry (descend (some fresh) qs (insert_entry e) d).0).1
          ≡ ok (some e))
    → (descend (some fresh) ps (insert_entry e) d).1 ≡ ok tt
    → (descend none ps get_entry (descend (some fresh) ps (insert_entry e) d).0).1 ≡ ok (some e)
descend_as fresh ps qs e d k h = rw k h

last_name :
    (c : Bytes) (cs : List Bytes) → (ms : List Bytes) × (n : Bytes) × (c ∷ cs ≡ ms ++ n ∷ [])
last_name c [] = ([], c, refl)
last_name c (d ∷ cs) = let r = last_name d cs in (c ∷ r.0, r.1, ap (λ t. c ∷ t) r.2)

-- An entry that was inserted without an error under a path of plain names, none of them `..`, is found
-- under that path, whatever was in the tree before.
pub get-insert :
    {M F S : Type 0} (default_meta : M) (c : Bytes) (cs : List Bytes) (e : Dirent M F S)
    (root : Dir M F S)
    → All IsName (c ∷ cs)
    → let path : Bytes = join_slash (c ∷ cs) in
      let inserted = insert default_meta path e root in
      (inserted.1 ≡ ok tt) → (get path inserted.0).1 ≡ ok (some e)
unfolding insert get
get-insert default_meta c cs e root h =
    let fresh = default_dir default_meta in
    let (ms, n, s) = last_name c cs in
    rw
      (
        lookup_impl-join (some fresh) c cs (insert_entry e) root h,
        lookup_impl-join none c cs get_entry
            (descend (some fresh) (map normal (c ∷ cs)) (insert_entry e) root).0 h,
      )
      (descend_as fresh (map normal (c ∷ cs)) (names_path ms n) e root
        (ap (map normal) s ∙ names_path-map ms n) (descend-found fresh ms n e root))
