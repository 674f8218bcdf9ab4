-- ===== src/Pearchive/Walk/Sendfile.antt =====
-- The loop round sendfile: it ends where the kernel moves something each time, and not where the
-- file has become shorter.
use program_explorer.Prelude.{
  ℕ, zero, suc, ◌-◌, ◌≤◌, ◌<◌, ◌≡◌, refl, ap, ◌∙◌, arith, none, some, [], ◌∷◌, ◌++◌, length,
  length-drop, take, drop, append_assoc, append-nil,
}
use program_explorer.Prelude.Result.{Result, ok}
use program_explorer.Prelude.Bytes.{Bytes}
use program_explorer.Pearchive.Walk.{sendfile_all}

-- Of a file that holds as much as is asked for, a call moves at least a byte and no more than that.
pub record MakesProgress (sendfile : Bytes → ℕ → Result ℕ ℕ) : Type 0 where
  pub count : Bytes → ℕ → ℕ
  pub answers :
      (contents : Bytes) (len : ℕ)
      → 0 < len
      → len ≤ length contents
      → sendfile contents len ≡ ok (count contents len)
  pub some_byte :
      (contents : Bytes) (len : ℕ) → 0 < len → len ≤ length contents → 0 < count contents len
  pub in_range :
      (contents : Bytes) (len : ℕ) → 0 < len → len ≤ length contents → count contents len ≤ len

take-nil : (k : ℕ) → take {A = ℕ} k [] ≡ []
take-nil zero = refl
take-nil (suc k) = refl

take-add : (m n : ℕ) (xs : Bytes) → m ≤ n → take m xs ++ take (n - m) (drop m xs) ≡ take n xs
take-add zero n xs h = ap (λ (k : ℕ). take k xs) (omega arith)
take-add (suc m) zero xs h = absurd (omega arith)
take-add (suc m) (suc n) [] h = take-nil (suc n - suc m)
take-add (suc m) (suc n) (x ∷ xs) h =
    ap (λ (k : ℕ). x ∷ (take m xs ++ take k (drop m xs))) (omega arith)
    ∙ ap (λ t. x ∷ t) (take-add m n xs (omega arith))

-- With a kernel that makes progress the loop ends, and moves the first `len` bytes of the file: as
-- many rounds as bytes, and one, are enough.
pub sendfile_all-take :
    (sendfile : Bytes → ℕ → Result ℕ ℕ)
    → MakesProgress sendfile
    → (rounds : ℕ) (contents : Bytes) (len : ℕ) (out : Bytes) → len ≤ length contents
    → len < rounds
    → sendfile_all sendfile rounds contents len out ≡ some (ok (out ++ take len contents))
unfolding sendfile_all
sendfile_all-take sendfile p zero contents len out h lt = absurd (omega arith)
sendfile_all-take sendfile p (suc rounds) contents zero out h lt = rw append-nil
sendfile_all-take sendfile p (suc rounds) contents (suc len) out h lt =
    rw (p.answers contents (suc len) (omega arith) h) (
      ground (
        arith,
        p.some_byte contents (suc len),
        p.in_range contents (suc len),
        length-drop (p.count contents (suc len)) contents,
        sendfile_all-take sendfile p rounds (drop (p.count contents (suc len)) contents)
            (suc len - p.count contents (suc len))
            (out ++ take (p.count contents (suc len)) contents),
        append_assoc out (take (p.count contents (suc len)) contents) (
            take (suc len - p.count contents (suc len))
              (drop (p.count contents (suc len)) contents)),
        take-add (p.count contents (suc len)) (suc len) contents,
      ))

-- A file that became shorter after its size was read: at its end the kernel moves nothing, and while
-- bytes are still expected the loop goes on, however many rounds it makes.
pub sendfile_all-shrunk :
    (sendfile : Bytes → ℕ → Result ℕ ℕ)
    → ((len : ℕ) → sendfile [] len ≡ ok 0)
    → (rounds len : ℕ) (out : Bytes) → 0 < len
    → sendfile_all sendfile rounds [] len out ≡ none
unfolding sendfile_all
sendfile_all-shrunk sendfile h zero len out lt = refl
sendfile_all-shrunk sendfile h (suc rounds) len out lt =
    rw (h len) (ground (arith, sendfile_all-shrunk sendfile h rounds len (out ++ [])))
