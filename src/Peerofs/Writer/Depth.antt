-- ===== src/Peerofs/Writer/Depth.antt =====
-- How deep a tree a walk goes through.
use program_explorer.Prelude.{
  ℕ, suc, ◌+◌, ◌<◌, ◌≤◌, ◌≡◌, refl, arith, ◌==◌, ltb, if◌then◌else◌, Bool-cases, inl, inr,
}
use program_explorer.Prelude.Result.{Result, ok, err, ◌>>=◌}
use program_explorer.Peerofs.Writer.{
  Error, max_depth_exceeded, File, DirInfo, Dirent, Children, file_child, dir_child, symlink_child,
  dot, dot_dot, end, child, TreeVisitor, recur, recur_child, recur_children, walk_tree,
}

abbrev pub max : ℕ → ℕ → ℕ
max a b = if ltb a b then b else a

-- The directories on the longest way down.
mutual
  pub dirent_height : Dirent → ℕ
  dirent_height (file_child f) = 0
  dirent_height (symlink_child f) = 0
  dirent_height (dir_child d cs) = 1 + children_height cs
  dirent_height dot = 0
  dirent_height dot_dot = 0

  pub children_height : Children → ℕ
  children_height end = 0
  children_height (child name d cs) = max (dirent_height d) (children_height cs)

-- A visitor that never fails.
pub record Total {S : Type 0} (v : TreeVisitor S) : Type 0 where
  pub file_ok : (s : S) (f : File) → (r : S × File) × (v.on_file s f ≡ ok r)
  pub symlink_ok : (s : S) (f : File) → (r : S × File) × (v.on_symlink s f ≡ ok r)
  pub enter_ok :
      (s : S) (d : DirInfo) (cs : Children) → (r : S × DirInfo) × (v.on_dir_enter s d cs ≡ ok r)
  pub exit_ok :
      (s : S) (d : DirInfo) (cs : Children) → (r : S × DirInfo) × (v.on_dir_exit s d cs ≡ ok r)

-- The walk has a result below the limit, and fails from there on.
abbrev pub Limited : {A : Type 0} → ℕ → ℕ → Result Error A → Type 0
Limited {A} n limit r =
    (n < limit → (a : A) × (r ≡ ok a)) × (limit ≤ n → r ≡ err max_depth_exceeded)

Limited-shift :
    {A : Type 0} (n m limit : ℕ) (r : Result Error A)
    → n ≡ m
    → Limited n limit r
    → Limited m limit r
Limited-shift n m limit r e h = (λ l. h.0 (omega (arith, e, l)), λ l. h.1 (omega (arith, e, l)))

-- Two parts one behind the other.
Limited-bind :
    {A B : Type 0} (n m limit : ℕ) (r : Result Error A) (f : A → Result Error B)
    → Limited n limit r
    → ((a : A) → Limited m limit (f a))
    → Limited (max n m) limit (r >>= f)
Limited-bind n m limit r f h k = elim (Bool-cases (ltb n limit)) [
  | inl e ↦
      let (a, q) = h.0 (ground (arith, e)) in
      rw q (λ l. (k a).0 (ground (arith, l)), λ l. (k a).1 (ground (arith, l, e)))
  | inr e ↦ let q = h.1 (ground (arith, e)) in rw q (λ l. absurd (ground (arith, l, e)), λ l. refl)
]

-- A last part that does not fail.
Limited-ok :
    {A B : Type 0} (n limit : ℕ) (r : Result Error A) (f : A → Result Error B)
    → Limited n limit r
    → ((a : A) → (b : B) × (f a ≡ ok b))
    → Limited n limit (r >>= f)
Limited-ok n limit r f h k =
    (λ l. let (a, q) = h.0 l in rw q (k a), λ l. let q = h.1 l in rw q refl)

module _ {S : Type 0} (v : TreeVisitor S) (t : Total v) (limit : ℕ) where
  mutual
    unfolding recur_child recur_children dirent_height children_height

    Limited-recur_child :
        (d : Dirent) (depth : ℕ) (s : S)
        → depth < limit
        → Limited (depth + dirent_height d) limit (recur_child v limit depth s d)
    Limited-recur_child (file_child f) depth s h =
        let (r, q) = t.file_ok s f in rw q (λ l. (_, refl), λ l. absurd (omega (arith, h, l)))
    Limited-recur_child (symlink_child f) depth s h =
        let (r, q) = t.symlink_ok s f in rw q (λ l. (_, refl), λ l. absurd (omega (arith, h, l)))
    Limited-recur_child (dir_child d cs) depth s h = elim (Bool-cases (suc depth == limit)) [
      | inl e ↦ rw e (λ l. absurd (ground (arith, e, l)), λ l. refl)
      | inr e ↦
          let (entered, q) = t.enter_ok s d cs in
          rw (e, q)
            (Limited-shift (suc depth + children_height cs) (depth + (1 + children_height cs)) limit
              _ (omega arith)
              (Limited-ok (suc depth + children_height cs) limit
                (recur_children v limit (suc depth) entered.0 cs) (λ walked. _)
                (Limited-recur_children cs (suc depth) entered.0 (ground (arith, e, h)))
                (λ walked.
                  let (left, q2) = t.exit_ok walked.0 entered.1 walked.1 in rw q2 (_, refl))))
    ]
    Limited-recur_child dot depth s h = (λ l. (_, refl), λ l. absurd (omega (arith, h, l)))
    Limited-recur_child dot_dot depth s h = (λ l. (_, refl), λ l. absurd (omega (arith, h, l)))

    Limited-recur_children :
        (cs : Children) (depth : ℕ) (s : S)
        → depth < limit
        → Limited (depth + children_height cs) limit (recur_children v limit depth s cs)
    Limited-recur_children end depth s h = (λ l. (_, refl), λ l. absurd (omega (arith, h, l)))
    Limited-recur_children (child name d cs) depth s h =
        Limited-shift (max (depth + dirent_height d) (depth + children_height cs))
          (depth + max (dirent_height d) (children_height cs)) limit _ (ground arith)
          (Limited-bind (depth + dirent_height d) (depth + children_height cs) limit
            (recur_child v limit depth s d) (λ r. _) (Limited-recur_child d depth s h)
            (λ r.
              Limited-ok (depth + children_height cs) limit (recur_children v limit depth r.0 cs)
                (λ rs. _) (Limited-recur_children cs depth r.0 h) (λ rs. (_, refl))))

  -- A visitor that never fails goes through a tree of directories that are nested less deep than the
  -- limit, the root included in the count, and fails in every deeper one.
  pub walk_tree-Limited :
      (d : DirInfo) (cs : Children) (s : S)
      → Limited (children_height cs) limit (walk_tree v limit s d cs)
  unfolding walk_tree recur
  walk_tree-Limited d cs s = elim (Bool-cases (0 == limit)) [
    | inl e ↦ rw e (λ l. absurd (ground (arith, e, l)), λ l. refl)
    | inr e ↦
        let (entered, q) = t.enter_ok s d cs in
        rw (e, q)
          (Limited-ok (children_height cs) limit (recur_children v limit 0 entered.0 cs)
            (λ walked. _)
            (Limited-shift (0 + children_height cs) (children_height cs) limit _ (omega arith)
              (Limited-recur_children cs 0 entered.0 (ground (arith, e))))
            (λ walked. let (left, q2) = t.exit_ok walked.0 entered.1 walked.1 in rw q2 (_, refl)))
  ]
