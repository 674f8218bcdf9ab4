-- ===== src/Prelude/Result.antt =====
-- Rust's `Result`, whose `?` is the bind of a `do` block.
use mathlib.Core.Path.{◌≡◌, refl}
use mathlib.Core.Bool.{Bool, true, false}
use mathlib.Core.Option.{Option, none, some}
use mathlib.Core.Logic.{◌⊎◌, inl, inr, Lift}

pub data Result {ℓ κ} (E : Type ℓ) (A : Type κ) : Type (ℓ ⊔ κ) where
  ok : A → Result E A
  err : E → Result E A

infixl 5 ◌>>=◌ ◌>>◌
abbrev pub ◌>>=◌ {ℓ κ μ} :
    {E : Type ℓ} {A : Type κ} {B : Type μ} → Result E A → (A → Result E B) → Result E B
ok a >>= f = f a
err e >>= f = err e

abbrev pub ◌>>◌ {ℓ μ} : {E : Type ℓ} {B : Type μ} → Result E (Unit {0}) → Result E B → Result E B
m >> k = m >>= λ _. k

-- `cond.then_some(()).ok_or(e)`, and `if !cond { return Err(e) }`.
abbrev pub ensure {ℓ} : {E : Type ℓ} → Bool → E → Result E (Unit {0})
ensure true e = ok tt
ensure false e = err e

-- `o.ok_or(e)`
abbrev pub ok_or {ℓ κ} : {E : Type ℓ} {A : Type κ} → Option A → E → Result E A
ok_or none e = err e
ok_or (some a) e = ok a

-- `r.map_err(f)`
abbrev pub map_err {ℓ κ μ} :
    {E : Type ℓ} {F : Type κ} {A : Type μ} → (E → F) → Result E A → Result F A
map_err f (ok a) = ok a
map_err f (err e) = err (f e)

pub Result-cases {ℓ κ} :
    {E : Type ℓ} {A : Type κ} (r : Result E A) → ((a : A) × (r ≡ ok a)) ⊎ ((e : E) × (r ≡ err e))
Result-cases (ok a) = inl (a, refl)
Result-cases (err e) = inr (e, refl)

-- The result is a value, and the value satisfies `P`.
abbrev pub Succeeds {ℓ κ μ} : {E : Type ℓ} {A : Type κ} → (A → Type μ) → Result E A → Type μ
Succeeds P (ok a) = P a
Succeeds P (err e) = Lift ⊥

pub Succeeds-bind {ℓ κ μ ν ξ} :
    {E : Type ℓ} {A : Type κ} {B : Type μ} (P : A → Type ν) (Q : B → Type ξ) (r : Result E A)
    (f : A → Result E B)
    → Succeeds P r
    → ((a : A) → P a → Succeeds Q (f a))
    → Succeeds Q (r >>= f)
Succeeds-bind P Q (ok a) f h k = k a h
Succeeds-bind P Q (err e) f h k = absurd h.lower

pub Succeeds-map {ℓ κ ν ξ} :
    {E : Type ℓ} {A : Type κ} (P : A → Type ν) (Q : A → Type ξ) (r : Result E A)
    → Succeeds P r
    → ((a : A) → P a → Q a)
    → Succeeds Q r
Succeeds-map P Q (ok a) h k = k a h
Succeeds-map P Q (err e) h k = absurd h.lower

-- The value satisfies `P`, if there is one.
abbrev pub IfOk {ℓ κ} : {E : Type ℓ} {A : Type κ} → (A → Type 0) → Result E A → Type 0
IfOk P (ok a) = P a
IfOk P (err e) = Unit

pub IfOk-bind {ℓ κ μ} :
    {E : Type ℓ} {A : Type κ} {B : Type μ} (P : A → Type 0) (Q : B → Type 0) (r : Result E A)
    (f : A → Result E B)
    → IfOk P r
    → ((a : A) → P a → IfOk Q (f a))
    → IfOk Q (r >>= f)
IfOk-bind P Q (ok a) f h k = k a h
IfOk-bind P Q (err e) f h k = tt

pub IfOk-all {ℓ κ} :
    {E : Type ℓ} {A : Type κ} (P : A → Type 0) (r : Result E A)
    → ((a : A) → r ≡ ok a → P a)
    → IfOk P r
IfOk-all P (ok a) k = k a refl
IfOk-all P (err e) k = tt

pub IfOk-ok {ℓ κ} :
    {E : Type ℓ} {A : Type κ} (P : A → Type 0) (r : Result E A) (a : A) → r ≡ ok a → IfOk P r → P a
IfOk-ok P r a e h = rw e at h

pub IfOk-map {ℓ κ} :
    {E : Type ℓ} {A : Type κ} (P Q : A → Type 0) (r : Result E A)
    → IfOk P r
    → ((a : A) → P a → Q a)
    → IfOk Q r
IfOk-map P Q (ok a) h k = k a h
IfOk-map P Q (err e) h k = tt

pub IfOk-ensure {ℓ κ} :
    {E : Type ℓ} {B : Type κ} (Q : B → Type 0) (b : Bool) (x : E) (r : Result E B)
    → IfOk Q r
    → IfOk Q (ensure b x >> r)
IfOk-ensure Q true x r h = h
IfOk-ensure Q false x r h = tt

pub IfOk-map_err {ℓ κ μ} :
    {E : Type ℓ} {F : Type κ} {A : Type μ} (P : A → Type 0) (f : E → F) (r : Result E A)
    → IfOk P r
    → IfOk P (map_err f r)
IfOk-map_err P f (ok a) h = h
IfOk-map_err P f (err e) h = tt
