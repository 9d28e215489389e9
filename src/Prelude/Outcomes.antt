-- ===== src/Prelude/Outcomes.antt =====
-- How a Rust function ends: with a value, with an `Err`, or with a panic (`unwrap`, `assert!`,
-- `unreachable!`, an index out of bounds).
use mathlib.Core.Path.{◌≡◌, refl}
use mathlib.Core.Logic.{◌⊎◌, inl, inr}
use mathlib.Core.Option.{Option, none, some}

pub data Outcome {ℓ} (E A : Type ℓ) : Type ℓ where
  ok : A → Outcome E A
  err : E → Outcome E A
  panic : Outcome E A

infixl 5 ◌>>=◌ ◌>>◌
abbrev pub ◌>>=◌ {ℓ} : {E A B : Type ℓ} → Outcome E A → (A → Outcome E B) → Outcome E B
ok a >>= f = f a
err e >>= f = err e
panic >>= f = panic

abbrev pub ◌>>◌ {ℓ} : {E A B : Type ℓ} → Outcome E A → Outcome E B → Outcome E B
m >> k = m >>= λ _. k

-- `Option::unwrap`
abbrev pub unwrap {ℓ} : {E A : Type ℓ} → Option A → Outcome E A
unwrap none = panic
unwrap (some a) = ok a

pub ok_injective {ℓ} : {E A : Type ℓ} (a b : A) → ◌≡◌ {A = Outcome E A} (ok a) (ok b) → a ≡ b
ok_injective a b e = cc e

-- A chain that ends with a value has one at each link.
pub bind_ok {ℓ} :
    {E A B : Type ℓ} (m : Outcome E A) (f : A → Outcome E B) {b : B}
    → (m >>= f) ≡ ok b
    → (a : A) × (m ≡ ok a) × (f a ≡ ok b)
bind_ok (ok a) f e = (a, refl, e)
bind_ok (err x) f e = absurd (cc e)
bind_ok panic f e = absurd (cc e)

pub unwrap_ok {ℓ} :
    {E A : Type ℓ} (o : Option A) (a : A) → ◌≡◌ {A = Outcome E A} (unwrap o) (ok a) → o ≡ some a
unwrap_ok none a e = absurd (cc e)
unwrap_ok (some x) a e = cc e

-- A chain that ends with an error has it at one link.
pub bind_err {ℓ} :
    {E A B : Type ℓ} (m : Outcome E A) (f : A → Outcome E B) {x : E}
    → (m >>= f) ≡ err x
    → (m ≡ err x) ⊎ ((a : A) × (m ≡ ok a) × (f a ≡ err x))
bind_err (ok a) f e = inr (a, refl, e)
bind_err {A = A} (err y) f {x} e = inl (cc e)
bind_err panic f e = absurd (cc e)

pub unwrap_err {ℓ} :
    {E A : Type ℓ} (o : Option A) (x : E) → ◌≡◌ {A = Outcome E A} (unwrap o) (err x) → ⊥
unwrap_err none x e = cc e
unwrap_err (some a) x e = cc e
