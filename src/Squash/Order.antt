-- ===== src/Squash/Order.antt =====
-- The order of byte strings, by which the keys of a `BTreeMap<OsString, _>` are kept.
use program_explorer.Prelude.{
  ℕ, ◌<◌, ◌≡◌, ◌⊎◌, inl, inr, refl, arith, Bool, true, false, ◌||◌, ◌&&◌, [], ◌∷◌, ◌++◌, ltb,
  ltb→lt, Bool-cases, ◌==◌,
}
use program_explorer.Prelude.Bytes.{Bytes}

unfoldable pub bytes_lt : Bytes → Bytes → Bool
bytes_lt a [] = false
bytes_lt [] (y ∷ ys) = true
bytes_lt (x ∷ xs) (y ∷ ys) = ltb x y || ((x == y) && bytes_lt xs ys)

-- The same as a type, which the tactics read.
abbrev pub Lt : Bytes → Bytes → Type 0
Lt a [] = ⊥
Lt [] (y ∷ ys) = Unit
Lt (x ∷ xs) (y ∷ ys) = (x < y) ⊎ ((x ≡ y) × Lt xs ys)

pub Lt-bytes_lt : (a b : Bytes) → Lt a b → bytes_lt a b ≡ true
unfolding bytes_lt
Lt-bytes_lt [] [] h = absurd h
Lt-bytes_lt [] (y ∷ ys) h = refl
Lt-bytes_lt (x ∷ xs) [] h = absurd h
Lt-bytes_lt (x ∷ xs) (y ∷ ys) (inl h) = ground arith
Lt-bytes_lt (x ∷ xs) (y ∷ ys) (inr (e, h)) = ground (arith, Lt-bytes_lt xs ys h)

pub bytes_lt-Lt : (a b : Bytes) → bytes_lt a b ≡ true → Lt a b
unfolding bytes_lt
bytes_lt-Lt [] [] h = absurd (cc)
bytes_lt-Lt [] (y ∷ ys) h = tt
bytes_lt-Lt (x ∷ xs) [] h = absurd (cc)
bytes_lt-Lt (x ∷ xs) (y ∷ ys) h = elim (Bool-cases (ltb x y)) [
  | inl e ↦ inl (ltb→lt x y e)
  | inr e ↦ inr (ground arith, bytes_lt-Lt xs ys (ground arith))
]

pub Lt-irrefl : (a : Bytes) → ¬ Lt a a
Lt-irrefl [] h = h
Lt-irrefl (x ∷ xs) (inl h) = omega arith
Lt-irrefl (x ∷ xs) (inr (e, h)) = Lt-irrefl xs h

pub Lt-trans : (a b c : Bytes) → Lt a b → Lt b c → Lt a c
Lt-trans a b [] h k = k
Lt-trans [] [] (z ∷ zs) h k = k
Lt-trans (x ∷ xs) [] (z ∷ zs) h k = absurd h
Lt-trans [] (y ∷ ys) (z ∷ zs) h k = tt
Lt-trans (x ∷ xs) (y ∷ ys) (z ∷ zs) (inl h) (inl k) = inl (omega arith)
Lt-trans (x ∷ xs) (y ∷ ys) (z ∷ zs) (inl h) (inr (e, k)) = inl (omega arith)
Lt-trans (x ∷ xs) (y ∷ ys) (z ∷ zs) (inr (e, h)) (inl k) = inl (omega arith)
Lt-trans (x ∷ xs) (y ∷ ys) (z ∷ zs) (inr (e, h)) (inr (d, k)) =
    inr (omega arith, Lt-trans xs ys zs h k)

-- Two strings are equal, or one of them comes first.
pub data Compare (a b : Bytes) : Type 0 where
  before : Lt a b → Compare a b
  same : a ≡ b → Compare a b
  after : Lt b a → Compare a b

Compare-cons :
    (x y : ℕ) (xs ys : Bytes)
    → Compare xs ys
    → (x < y) ⊎ (x ≡ y) ⊎ (y < x)
    → Compare (x ∷ xs) (y ∷ ys)
Compare-cons x y xs ys c (inl h) = before (inl h)
Compare-cons x y xs ys c (inr (inr h)) = after (inl h)
Compare-cons x y xs ys (before h) (inr (inl e)) = before (inr (e, h))
Compare-cons x y xs ys (same d) (inr (inl e)) = same (cc)
Compare-cons x y xs ys (after h) (inr (inl e)) = after (inr (omega arith, h))

pub compare : (a b : Bytes) → Compare a b
compare [] [] = same refl
compare [] (y ∷ ys) = before tt
compare (x ∷ xs) [] = after tt
compare (x ∷ xs) (y ∷ ys) = Compare-cons x y xs ys (compare xs ys) (three x y)
  where
    three : (x y : ℕ) → (x < y) ⊎ (x ≡ y) ⊎ (y < x)
    three x y = ground arith

-- A string stands before its continuations, and a common front does not matter.
pub Lt-append : (a b : Bytes) (x : ℕ) → Lt a (a ++ x ∷ b)
Lt-append [] b x = tt
Lt-append (y ∷ a) b x = inr (refl, Lt-append a b x)

pub Lt-front : (a b c : Bytes) → Lt b c → Lt (a ++ b) (a ++ c)
Lt-front [] b c h = h
Lt-front (x ∷ a) b c h = inr (refl, Lt-front a b c h)
