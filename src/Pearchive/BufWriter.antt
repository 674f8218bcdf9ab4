-- ===== src/Pearchive/BufWriter.antt =====
-- `std::io::BufWriter` with its default capacity, as far as pearchive/src/lib.rs uses it: over a
-- writer whose `write_all` and `flush` give the writer behind the call, or nothing where it fails.
use program_explorer.Prelude.{
  ℕ, ◌-◌, ◌≡◌, refl, sym, ap, ◌∙◌, arith, lt→ltb, true, false, Option, none, some, [], ◌∷◌, ◌++◌,
  length, ltb, Bool-cases, ◌⊎◌, inl, inr, append_assoc, append-nil, if◌then◌else◌,
}
use mathlib.Core.Logic.{Lift}
use program_explorer.Prelude.Bytes.{Bytes}

pub record BufWriter {ℓ} (W : Type ℓ) : Type ℓ where
  pub inner : W
  pub buffer : Bytes

-- `BufWriter::new(inner)`
abbrev pub new {ℓ} : {W : Type ℓ} → W → BufWriter W
new inner = record { inner = inner; buffer = [] }

abbrev pub capacity : ℕ
capacity = 8192

abbrev pub and_then {ℓ κ} : {A : Type ℓ} {B : Type κ} → Option A → (A → Option B) → Option B
and_then none k = none
and_then (some a) k = k a

module _ {ℓ} {W : Type ℓ} (write_inner : W → Bytes → Option W) where
  unfoldable pub flush_buf_of : W → Bytes → Option (BufWriter W)
  flush_buf_of inner [] = some (record { inner = inner; buffer = [] })
  flush_buf_of inner (b ∷ buffer) =
      and_then (write_inner inner (b ∷ buffer))
        (λ inner'. some (record { inner = inner'; buffer = [] }))

  unfoldable pub flush_buf : BufWriter W → Option (BufWriter W)
  flush_buf w = flush_buf_of w.inner w.buffer

  -- What does not fit the capacity goes past the buffer.
  unfoldable pub write_after_flush : Bytes → BufWriter W → Option (BufWriter W)
  write_after_flush bytes w =
      if ltb (length bytes) capacity
      then some (record w { buffer = w.buffer ++ bytes })
      else and_then (write_inner w.inner bytes) (λ inner. some (record w { inner = inner }))

  unfoldable pub write_all_cold : BufWriter W → Bytes → Option (BufWriter W)
  write_all_cold w bytes =
      if ltb (capacity - length w.buffer) (length bytes)
      then and_then (flush_buf w) (write_after_flush bytes)
      else write_after_flush bytes w

  unfoldable pub write_all : BufWriter W → Bytes → Option (BufWriter W)
  write_all w bytes =
      if ltb (length bytes) (capacity - length w.buffer)
      then some (record w { buffer = w.buffer ++ bytes })
      else write_all_cold w bytes

  unfoldable pub flush : (W → Option W) → BufWriter W → Option (BufWriter W)
  flush flush_inner w =
      and_then (flush_buf w)
        (λ w'. and_then (flush_inner w'.inner) (λ inner. some (record w' { inner = inner })))

  unfoldable pub into_inner : BufWriter W → Option W
  into_inner w = and_then (flush_buf w) (λ w'. some w'.inner)

-- The option holds a value that satisfies `P`.
abbrev pub Holds {ℓ κ} : {A : Type ℓ} → (A → Type κ) → Option A → Type κ
Holds P none = Lift ⊥
Holds P (some a) = P a

pub Holds-and_then {ℓ κ μ ν} :
    {A : Type ℓ} {B : Type κ} (P : A → Type μ) (Q : B → Type ν) (o : Option A) (k : A → Option B)
    → Holds P o
    → ((a : A) → P a → Holds Q (k a))
    → Holds Q (and_then o k)
Holds-and_then P Q none k h f = absurd h.lower
Holds-and_then P Q (some a) k h f = f a h

-- What has been written so far: to the inner writer, and into the buffer.
abbrev pub contents : BufWriter Bytes → Bytes
contents w = w.inner ++ w.buffer

pub Holds-map {ℓ κ ν} :
    {A : Type ℓ} (P : A → Type κ) (Q : A → Type ν) (o : Option A)
    → Holds P o
    → ((a : A) → P a → Q a)
    → Holds Q o
Holds-map P Q none h f = absurd h.lower
Holds-map P Q (some a) h f = f a h

flushed : (v : BufWriter Bytes) (t : Bytes) → v.buffer ≡ [] → v.inner ≡ t → contents v ≡ t
flushed v t h k = rw (h, append-nil) k

-- An inner writer that appends.
module _ (write_inner : Bytes → Bytes → Option Bytes)
    (appends : (out bytes : Bytes) → write_inner out bytes ≡ some (out ++ bytes)) where
  flush_buf_of_lem :
      (inner buffer : Bytes)
      → Holds
          (λ v. (v.buffer ≡ []) × (v.inner ≡ inner ++ buffer))
          (flush_buf_of write_inner inner buffer)
  unfolding flush_buf_of
  flush_buf_of_lem inner [] = (refl, sym (append-nil inner))
  flush_buf_of_lem inner (b ∷ buffer) = rw (appends inner (b ∷ buffer)) (refl, refl)

  pub flush_buf_lem :
      (w : BufWriter Bytes)
      → Holds (λ v. (v.buffer ≡ []) × (v.inner ≡ contents w)) (flush_buf write_inner w)
  unfolding flush_buf
  flush_buf_lem w = flush_buf_of_lem w.inner w.buffer

  write_after_flush_lem :
      (bytes inner buffer : Bytes)
      → (buffer ≡ []) ⊎ (ltb (length bytes) capacity ≡ true)
      → Holds
          (λ v. contents v ≡ (inner ++ buffer) ++ bytes)
          (write_after_flush write_inner bytes (record { inner = inner; buffer = buffer }))
  unfolding write_after_flush
  write_after_flush_lem bytes inner buffer h = elim (Bool-cases (ltb (length bytes) capacity)) [
    | inl e ↦ rw e (sym (append_assoc inner buffer bytes))
    | inr e ↦ elim h [
      | inl b ↦ rw (e, appends inner bytes, b, append-nil, append-nil) refl
      | inr k ↦ absurd (cc (e, k))
    ]
  ]

  -- A write that fills the rest of the buffer is as long as the capacity only if the buffer is empty.
  fills :
      (buffer bytes : Bytes)
      → ltb (length bytes) (capacity - length buffer) ≡ false
      → ltb (capacity - length buffer) (length bytes) ≡ false
      → (buffer ≡ []) ⊎ (ltb (length bytes) capacity ≡ true)
  fills [] bytes e f = inl refl
  fills (b ∷ buffer) bytes e f = inr (lt→ltb (length bytes) capacity (ground (arith, e, f)))

  write_all_cold_lem :
      (w : BufWriter Bytes) (bytes : Bytes)
      → ltb (length bytes) (capacity - length w.buffer) ≡ false
      → Holds (λ v. contents v ≡ contents w ++ bytes) (write_all_cold write_inner w bytes)
  unfolding write_all_cold
  write_all_cold_lem w bytes e =
      elim (Bool-cases (ltb (capacity - length w.buffer) (length bytes))) [
        | inl f ↦ rw f (
            Holds-and_then (λ v. (v.buffer ≡ []) × (v.inner ≡ contents w))
              (λ v. contents v ≡ contents w ++ bytes) (flush_buf write_inner w)
              (write_after_flush write_inner bytes) (flush_buf_lem w)
              (λ v (h, k).
                Holds-map (λ u. contents u ≡ contents v ++ bytes)
                  (λ u. contents u ≡ contents w ++ bytes) (write_after_flush write_inner bytes v)
                  (write_after_flush_lem bytes v.inner v.buffer (inl h))
                  (λ u q. q ∙ ap (λ t. t ++ bytes) (flushed v (contents w) h k))))
        | inr f ↦ rw f (write_after_flush_lem bytes w.inner w.buffer (fills w.buffer bytes e f))
      ]

  pub write_all_lem :
      (w : BufWriter Bytes) (bytes : Bytes)
      → Holds (λ v. contents v ≡ contents w ++ bytes) (write_all write_inner w bytes)
  unfolding write_all
  write_all_lem w bytes = elim (Bool-cases (ltb (length bytes) (capacity - length w.buffer))) [
    | inl e ↦ rw e (sym (append_assoc w.inner w.buffer bytes))
    | inr e ↦ rw e (write_all_cold_lem w bytes e)
  ]

  -- Everything has been written to the inner writer.
  pub flush_lem :
      (flush_inner : Bytes → Option Bytes) (w : BufWriter Bytes)
      → ((out : Bytes) → flush_inner out ≡ some out)
      → Holds (λ v. (v.buffer ≡ []) × (v.inner ≡ contents w)) (flush write_inner flush_inner w)
  unfolding flush
  flush_lem flush_inner w f =
      Holds-and_then (λ v. (v.buffer ≡ []) × (v.inner ≡ contents w))
        (λ v. (v.buffer ≡ []) × (v.inner ≡ contents w)) (flush_buf write_inner w) _
        (flush_buf_lem w) (λ v (h, k). rw (f v.inner) (h, k))

  pub into_inner_lem : (w : BufWriter Bytes) → into_inner write_inner w ≡ some (contents w)
  unfolding into_inner flush_buf flush_buf_of
  into_inner_lem w = go w.inner w.buffer
    where
      go :
          (inner buffer : Bytes)
          → and_then (flush_buf_of write_inner inner buffer) (λ w'. some w'.inner)
            ≡ some (inner ++ buffer)
      go inner [] = ap some (sym (append-nil inner))
      go inner (b ∷ buffer) = rw (appends inner (b ∷ buffer)) refl
