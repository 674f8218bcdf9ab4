-- ===== src/Pearchive/Unpack/Loop.antt =====
-- The unpacking loop ends on every input, and needs no fuel to be reasoned about.
use program_explorer.Prelude.{
  ℕ, zero, suc, ◌-◌, ◌≤◌, ◌<◌, ◌≡◌, ◌≢◌, refl, arith, Bool, Option, none, some, [], ◌∷◌, ◌++◌,
  length, length-drop, ◌==◌, if◌then◌else◌, inl, inr,
}
use program_explorer.Prelude.Result.{ok, err, Result-cases}
use program_explorer.Prelude.Bytes.{Bytes}
use program_explorer.Pearchive.Format.{
  archive_truncated, ArchiveFormat1Tag, file, dir, pop, tag_try_from, read_cstr, find_nul,
  read_le_u32,
}
use program_explorer.PathBuf
use program_explorer.Pearchive.Unpack.{read_file, Outcome, unpack_step, unpack_loop, unpack_visitor}

length-find_nul :
    (n : ℕ) (seen cur name rest : Bytes)
    → find_nul n seen cur ≡ ok (name, rest)
    → length rest < length cur
unfolding find_nul
length-find_nul zero seen cur name rest h = cc
length-find_nul (suc n) seen [] name rest h = cc
length-find_nul (suc n) seen (b ∷ cur) name rest h =
    ground (arith, length-find_nul n (seen ++ b ∷ []) cur name rest)

-- A reader leaves less than it was given.
pub length-read_cstr :
    (cur name rest : Bytes) → read_cstr cur ≡ ok (name, rest) → length rest < length cur
unfolding read_cstr
length-read_cstr [] name rest h = cc
length-read_cstr (b ∷ []) name rest h = cc
length-read_cstr (b ∷ c ∷ cur) name rest h =
    omega (arith, length-find_nul 255 (b ∷ []) (c ∷ cur) name rest h)

length-read_le_u32 :
    (cur : Bytes) (n : ℕ) (rest : Bytes) → read_le_u32 cur ≡ ok (n, rest) → length rest ≤ length cur
unfolding read_le_u32
length-read_le_u32 cur n rest h = ground (arith, length-drop 4 cur)

pub length-read_file :
    (cur name contents rest : Bytes)
    → read_file cur ≡ ok (name, contents, rest)
    → length rest < length cur
unfolding read_file
length-read_file cur name contents rest h = elim (Result-cases (read_cstr cur)) [
  | inr (e, q) ↦ absurd (ground arith)
  | inl ((n, cur1), q) ↦ elim (Result-cases (read_le_u32 cur1)) [
    | inr (e, r) ↦ absurd (ground arith)
    | inl ((len, cur2), r) ↦ ground (
      arith,
      length-read_cstr cur n cur1 q,
      length-read_le_u32 cur1 len cur2 r,
      length-drop len cur2,
    )
  ]
]

le_of_lt : {a b : ℕ} → a < b → a ≤ b
le_of_lt h = omega arith

module _ {ℓ} {V : Type ℓ} (on_file : Bytes → Bytes → V → V × Bool) where
  abbrev pub Again : Type ℓ
  Again = Bytes → Bytes → ℕ → V → Outcome on_file

  -- One round depends on the next only at shorter inputs.
  unpack_step-cong :
      (a b : Again) (tag : Option ArchiveFormat1Tag) (cur path : Bytes) (depth : ℕ) (v : V)
      → ((c p : Bytes) (d : ℕ) (w : V) → length c ≤ length cur → a c p d w ≡ b c p d w)
      → unpack_step on_file a tag cur path depth v ≡ unpack_step on_file b tag cur path depth v
  unfolding unpack_step
  unpack_step-cong a b none cur path depth v h = refl
  unpack_step-cong a b (some file) cur path depth v h = elim (Result-cases (read_file cur)) [
    | inr (e, q) ↦ rw q
    | inl ((name, contents, rest), q) ↦ rw q (
        ground (
          arith,
          h rest (PathBuf.pop (PathBuf.push path name)) depth
              (on_file (PathBuf.push path name) contents v).0
              (le_of_lt (length-read_file cur name contents rest q)),
        ))
  ]
  unpack_step-cong a b (some dir) cur path depth v h = elim (Result-cases (read_cstr cur)) [
    | inr (e, q) ↦ rw q
    | inl ((name, rest), q) ↦ rw q (h rest _ _ v (omega (arith, length-read_cstr cur name rest q)))
  ]
  unpack_step-cong a b (some pop) cur path depth v h =
      ground (arith, h cur (PathBuf.pop path) (depth - 1) v)

  loop-cong :
      (m n : ℕ) (cur path : Bytes) (depth : ℕ) (v : V)
      → length cur < m
      → length cur < n
      → unpack_loop on_file m cur path depth v ≡ unpack_loop on_file n cur path depth v
  unfolding unpack_loop
  loop-cong zero n cur path depth v hm hn = absurd (omega arith)
  loop-cong (suc m) zero cur path depth v hm hn = absurd (omega arith)
  loop-cong (suc m) (suc n) [] path depth v hm hn = refl
  loop-cong (suc m) (suc n) (b ∷ cur) path depth v hm hn =
      unpack_step-cong (unpack_loop on_file m) (unpack_loop on_file n) (tag_try_from b) cur path
        depth v (λ c p d w le. loop-cong m n c p d w (omega arith) (omega arith))

  -- The loop with as many rounds as it needs.
  unfoldable pub unpack_from : Again
  unpack_from cur path depth v = unpack_loop on_file (suc (length cur)) cur path depth v

  pub unpack_visitor-from :
      (bytes : Bytes) (v : V) → unpack_visitor on_file bytes v ≡ unpack_from bytes [] 0 v
  unfolding unpack_from unpack_visitor
  unpack_visitor-from bytes v = refl

  pub unpack_from-nil :
      (path : Bytes) (depth : ℕ) (v : V)
      → unpack_from [] path depth v ≡ some (v, if depth == 0 then ok tt else err archive_truncated)
  unfolding unpack_from unpack_loop
  unpack_from-nil path depth v = refl

  pub unpack_from-cons :
      (b : ℕ) (cur path : Bytes) (depth : ℕ) (v : V)
      → unpack_from (b ∷ cur) path depth v
        ≡ unpack_step on_file unpack_from (tag_try_from b) cur path depth v
  unfolding unpack_from unpack_loop
  unpack_from-cons b cur path depth v =
      unpack_step-cong (unpack_loop on_file (suc (length cur))) unpack_from (tag_try_from b) cur
        path depth v
        (λ c p d w le.
          loop-cong (suc (length cur)) (suc (length c)) c p d w (omega arith) (omega arith))

  step-ne-none :
      (a : Again) (tag : Option ArchiveFormat1Tag) (cur path : Bytes) (depth : ℕ) (v : V)
      → ((c p : Bytes) (d : ℕ) (w : V) → length c ≤ length cur → a c p d w ≢ none)
      → unpack_step on_file a tag cur path depth v ≢ none
  unfolding unpack_step
  step-ne-none a none cur path depth v h = λ e. cc
  step-ne-none a (some file) cur path depth v h = elim (Result-cases (read_file cur)) [
    | inr (e, q) ↦ rw q (λ e. cc)
    | inl ((name, contents, rest), q) ↦ rw q (
        ground (
          arith,
          h rest (PathBuf.pop (PathBuf.push path name)) depth
              (on_file (PathBuf.push path name) contents v).0
              (le_of_lt (length-read_file cur name contents rest q)),
        ))
  ]
  step-ne-none a (some dir) cur path depth v h = elim (Result-cases (read_cstr cur)) [
    | inr (e, q) ↦ rw q (λ e. cc)
    | inl ((name, rest), q) ↦ rw q (h rest _ _ v (omega (arith, length-read_cstr cur name rest q)))
  ]
  step-ne-none a (some pop) cur path depth v h =
      ground (arith, h cur (PathBuf.pop path) (depth - 1) v)

  loop-ne-none :
      (m : ℕ) (cur path : Bytes) (depth : ℕ) (v : V)
      → length cur < m
      → unpack_loop on_file m cur path depth v ≢ none
  unfolding unpack_loop
  loop-ne-none zero cur path depth v hm = absurd (omega arith)
  loop-ne-none (suc m) [] path depth v hm = λ e. cc
  loop-ne-none (suc m) (b ∷ cur) path depth v hm =
      step-ne-none (unpack_loop on_file m) (tag_try_from b) cur path depth v
        (λ c p d w le. loop-ne-none m c p d w (omega arith))

  -- The loop ends on every input, well formed or not: the rounds never run out.
  pub unpack_visitor-ne-none : (bytes : Bytes) (v : V) → unpack_visitor on_file bytes v ≢ none
  unfolding unpack_visitor
  unpack_visitor-ne-none bytes v = loop-ne-none (suc (length bytes)) bytes [] 0 v (omega arith)
