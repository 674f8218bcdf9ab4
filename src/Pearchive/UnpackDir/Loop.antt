-- ===== src/Pearchive/UnpackDir/Loop.antt =====
-- `unpack_to_dir` ends on every input, and needs no fuel to be reasoned about.
use program_explorer.Prelude.{
  ℕ, zero, suc, ◌≤◌, ◌<◌, ◌≡◌, ◌≢◌, refl, arith, Option, none, some, List, [], ◌∷◌, length, inl,
  inr, ◌==◌, if◌then◌else◌,
}
use program_explorer.Prelude.Result.{Result, ok, err, Result-cases}
use program_explorer.Prelude.Bytes.{Bytes}
use program_explorer.Pearchive.Format.{
  Error, archive_truncated, ArchiveFormat1Tag, file, dir, pop, tag_try_from, read_cstr, write,
}
use program_explorer.Pearchive.Unpack.{read_file}
use program_explorer.Pearchive.Unpack.Loop.{length-read_cstr, length-read_file}
use program_explorer.Pearchive.UnpackDir.{
  Kernel, Again, and_then, with_error, openat_w, openpathat, mkdirat, enter_dir, peek_tag,
  unpack_step, unpack_loop, unpack_to_dir,
}

pub and_then-cong :
    {A S : Type 0} (r : S × Result Error A) (k m : A → S → Option (S × Result Error (Unit {0})))
    → ((a : A) (s : S) → k a s ≡ m a s)
    → and_then r k ≡ and_then r m
unfolding and_then
and_then-cong (s, ok a) k m h = h a s
and_then-cong (s, err e) k m h = refl

pub and_then-ne-none :
    {A S : Type 0} (r : S × Result Error A) (k : A → S → Option (S × Result Error (Unit {0})))
    → ((a : A) (s : S) → k a s ≢ none)
    → and_then r k ≢ none
unfolding and_then
and_then-ne-none (s, ok a) k h = h a s
and_then-ne-none (s, err e) k h = λ p. cc

module _ {D F S : Type 0} (kernel : Kernel D F S) where
  -- One round depends on the next only at inputs that are no longer than what it was given.
  unpack_step-cong :
      (a b : Again kernel) (tag : Option ArchiveFormat1Tag) (stack : List D) (cur : Bytes) (s : S)
      → ((c : Bytes) (t : List D) (w : S) → length c ≤ length cur → a c t w ≡ b c t w)
      → unpack_step kernel a tag stack cur s ≡ unpack_step kernel b tag stack cur s
  unfolding unpack_step
  unpack_step-cong a b none stack cur s h = refl
  unpack_step-cong a b (some file) [] cur s h = refl
  unpack_step-cong a b (some file) (parent ∷ stack) cur s h = elim (Result-cases (read_file cur)) [
    | inr (e, q) ↦ rw q
    | inl ((name, contents, rest), q) ↦ rw q (
        and_then-cong (openat_w kernel parent name s) _ _ λ f s1.
          and_then-cong (with_error (λ _. write) (kernel.write_all f contents s1)) _ _ λ _ s2.
            h rest (parent ∷ stack) s2 (omega (arith, length-read_file cur name contents rest q)))
  ]
  unpack_step-cong a b (some dir) [] cur s h = refl
  unpack_step-cong a b (some dir) (parent ∷ stack) cur s h = elim (Result-cases (read_cstr cur)) [
    | inr (e, q) ↦ rw q
    | inl ((name, rest), q) ↦ rw q (
        and_then-cong (mkdirat kernel parent name s) _ _
          λ _ s1. peek rest name (omega (arith, length-read_cstr cur name rest q)) s1)
  ]
    where
      enter :
          (tag : Option ArchiveFormat1Tag) (x : ℕ) (r name : Bytes)
          → suc (length r) ≤ length cur
          → (w : S)
          → enter_dir kernel a parent stack name tag x r w
            ≡ enter_dir kernel b parent stack name tag x r w
      enter none x r name le w = h (x ∷ r) (parent ∷ stack) w le
      enter (some pop) x r name le w = h r (parent ∷ stack) w (omega arith)
      enter (some file) x r name le w =
          and_then-cong (openpathat kernel parent name w) _ _
            λ d s1. h (x ∷ r) (d ∷ parent ∷ stack) s1 le
      enter (some dir) x r name le w =
          and_then-cong (openpathat kernel parent name w) _ _
            λ d s1. h (x ∷ r) (d ∷ parent ∷ stack) s1 le

      peek :
          (r name : Bytes)
          → length r ≤ length cur
          → (w : S)
          → peek_tag kernel a parent stack name r w ≡ peek_tag kernel b parent stack name r w
      peek [] name le w = h [] (parent ∷ stack) w le
      peek (x ∷ r) name le w = enter (tag_try_from x) x r name le w
  unpack_step-cong a b (some pop) [] cur s h = refl
  unpack_step-cong a b (some pop) (d ∷ stack) cur s h = h cur stack s (omega arith)

  loop-cong :
      (m n : ℕ) (cur : Bytes) (stack : List D) (s : S)
      → length cur < m
      → length cur < n
      → unpack_loop kernel m cur stack s ≡ unpack_loop kernel n cur stack s
  unfolding unpack_loop
  loop-cong zero n cur stack s hm hn = absurd (omega arith)
  loop-cong (suc m) zero cur stack s hm hn = absurd (omega arith)
  loop-cong (suc m) (suc n) [] stack s hm hn = refl
  loop-cong (suc m) (suc n) (b ∷ cur) stack s hm hn =
      unpack_step-cong (unpack_loop kernel m) (unpack_loop kernel n) (tag_try_from b) stack cur s
        (λ c t w le. loop-cong m n c t w (omega arith) (omega arith))

  -- The loop with as many rounds as it needs.
  unfoldable pub unpack_from : Again kernel
  unpack_from cur stack s = unpack_loop kernel (suc (length cur)) cur stack s

  pub unpack_to_dir-from :
      (bytes : Bytes) (starting_dir : D) (s : S)
      → unpack_to_dir kernel bytes starting_dir s ≡ unpack_from bytes (starting_dir ∷ []) s
  unfolding unpack_from unpack_to_dir
  unpack_to_dir-from bytes starting_dir s = refl

  pub unpack_from-nil :
      (stack : List D) (s : S)
      → unpack_from [] stack s
        ≡ some (s, if length stack == 1 then ok tt else err archive_truncated)
  unfolding unpack_from unpack_loop
  unpack_from-nil stack s = refl

  pub unpack_from-cons :
      (b : ℕ) (cur : Bytes) (stack : List D) (s : S)
      → unpack_from (b ∷ cur) stack s ≡ unpack_step kernel unpack_from (tag_try_from b) stack cur s
  unfolding unpack_from unpack_loop
  unpack_from-cons b cur stack s =
      unpack_step-cong (unpack_loop kernel (suc (length cur))) unpack_from (tag_try_from b) stack
        cur s
        (λ c t w le.
          loop-cong (suc (length cur)) (suc (length c)) c t w (omega arith) (omega arith))
