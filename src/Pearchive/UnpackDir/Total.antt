-- ===== src/Pearchive/UnpackDir/Total.antt =====
-- `unpack_to_dir` ends on every input.
use program_explorer.Prelude.{
  ℕ, zero, suc, ◌≤◌, ◌<◌, ◌≢◌, arith, Option, none, some, List, [], ◌∷◌, length, inl, inr,
}
use program_explorer.Prelude.Result.{Result-cases}
use program_explorer.Prelude.Bytes.{Bytes}
use program_explorer.Pearchive.Format.{
  ArchiveFormat1Tag, file, dir, pop, tag_try_from, read_cstr, write,
}
use program_explorer.Pearchive.Unpack.{read_file}
use program_explorer.Pearchive.Unpack.Loop.{length-read_cstr, length-read_file}
use program_explorer.Pearchive.UnpackDir.{
  Kernel, Again, with_error, openat_w, openpathat, mkdirat, enter_dir, peek_tag, unpack_step,
  unpack_loop, unpack_to_dir,
}
use program_explorer.Pearchive.UnpackDir.Loop.{and_then-ne-none}

module _ {D F S : Type 0} (kernel : Kernel D F S) where
  -- The next round is made only at inputs that are no longer than what this one was given.
  step-ne-none :
      (a : Again kernel) (tag : Option ArchiveFormat1Tag) (stack : List D) (cur : Bytes) (s : S)
      → ((c : Bytes) (t : List D) (w : S) → length c ≤ length cur → a c t w ≢ none)
      → unpack_step kernel a tag stack cur s ≢ none
  unfolding unpack_step
  step-ne-none a none stack cur s h = λ e. cc
  step-ne-none a (some file) [] cur s h = λ e. cc
  step-ne-none a (some file) (parent ∷ stack) cur s h = elim (Result-cases (read_file cur)) [
    | inr (e, q) ↦ rw q (λ p. cc)
    | inl ((name, contents, rest), q) ↦ rw q (
        and_then-ne-none (openat_w kernel parent name s) _ λ f s1.
          and_then-ne-none (with_error (λ _. write) (kernel.write_all f contents s1)) _ λ _ s2.
            h rest (parent ∷ stack) s2 (omega (arith, length-read_file cur name contents rest q)))
  ]
  step-ne-none a (some dir) [] cur s h = λ e. cc
  step-ne-none a (some dir) (parent ∷ stack) cur s h = elim (Result-cases (read_cstr cur)) [
    | inr (e, q) ↦ rw q (λ p. cc)
    | inl ((name, rest), q) ↦ rw q (
        and_then-ne-none (mkdirat kernel parent name s) _
          λ _ s1. peek rest name (omega (arith, length-read_cstr cur name rest q)) s1)
  ]
    where
      enter :
          (tag : Option ArchiveFormat1Tag) (x : ℕ) (r name : Bytes)
          → suc (length r) ≤ length cur
          → (w : S) → enter_dir kernel a parent stack name tag x r w ≢ none
      enter none x r name le w = h (x ∷ r) (parent ∷ stack) w le
      enter (some pop) x r name le w = h r (parent ∷ stack) w (omega arith)
      enter (some file) x r name le w =
          and_then-ne-none (openpathat kernel parent name w) _
            λ d s1. h (x ∷ r) (d ∷ parent ∷ stack) s1 le
      enter (some dir) x r name le w =
          and_then-ne-none (openpathat kernel parent name w) _
            λ d s1. h (x ∷ r) (d ∷ parent ∷ stack) s1 le

      peek :
          (r name : Bytes)
          → length r ≤ length cur
          → (w : S) → peek_tag kernel a parent stack name r w ≢ none
      peek [] name le w = h [] (parent ∷ stack) w le
      peek (x ∷ r) name le w = enter (tag_try_from x) x r name le w
  step-ne-none a (some pop) [] cur s h = λ e. cc
  step-ne-none a (some pop) (d ∷ stack) cur s h = h cur stack s (omega arith)

  loop-ne-none :
      (m : ℕ) (cur : Bytes) (stack : List D) (s : S)
      → length cur < m
      → unpack_loop kernel m cur stack s ≢ none
  unfolding unpack_loop
  loop-ne-none zero cur stack s hm = absurd (omega arith)
  loop-ne-none (suc m) [] stack s hm = λ e. cc
  loop-ne-none (suc m) (b ∷ cur) stack s hm =
      step-ne-none (unpack_loop kernel m) (tag_try_from b) stack cur s
        (λ c t w le. loop-ne-none m c t w (omega arith))

  -- On every input and whatever the kernel answers, unpacking into a directory ends: the rounds never
  -- run out.
  pub unpack_to_dir-ne-none :
      (bytes : Bytes) (starting_dir : D) (s : S) → unpack_to_dir kernel bytes starting_dir s ≢ none
  unfolding unpack_to_dir
  unpack_to_dir-ne-none bytes starting_dir s =
      loop-ne-none (suc (length bytes)) bytes (starting_dir ∷ []) s (omega arith)
