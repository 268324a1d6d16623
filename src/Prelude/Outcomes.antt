-- ===== src/Prelude/Outcomes.antt =====
-- Python code that may raise: its value, or the exception. `AssertionError` is apart from
-- `ParityError`, whose text is kept as the data that it is formatted from.
use mathlib.Core.Path.{◌≡◌, refl}
use mathlib.Core.Option.{some}

-- `why` is the kind of exception that a component raises.
pub data Outcome {ℓ κ} (E : Type κ) (A : Type ℓ) : Type (ℓ ⊔ κ) where
  ok : A → Outcome E A
  err : E → Outcome E A

infixl 5 ◌>>=◌ ◌>>◌
abbrev pub ◌>>=◌ {ℓ κ μ} :
    {E : Type μ} {A : Type ℓ} {B : Type κ} → Outcome E A → (A → Outcome E B) → Outcome E B
ok a >>= f = f a
err e >>= f = err e

abbrev pub ◌>>◌ {ℓ μ} : {E : Type μ} {B : Type ℓ} → Outcome E (Unit {0}) → Outcome E B → Outcome E B
m >> k = m >>= λ _. k

-- The code returns, and its value satisfies `P`.
abbrev pub Returns {ℓ μ} : {E : Type μ} {A : Type ℓ} → Outcome E A → (A → Type 0) → Type 0
Returns (ok a) P = P a
Returns (err e) P = ⊥

module _ {ℓ μ} {E : Type μ} {A : Type ℓ} where
  pub Returns-value : (P : A → Type 0) (r : Outcome E A) → Returns r P → (a : A) × (r ≡ ok a) × P a
  Returns-value P (ok a) h = (a, refl, h)
  Returns-value P (err e) h = absurd h

  pub Returns-imp :
      (P Q : A → Type 0) (r : Outcome E A) → Returns r P → ((a : A) → P a → Q a) → Returns r Q
  Returns-imp P Q (ok a) h f = f a h
  Returns-imp P Q (err e) h f = h

  pub Returns-bind {κ} :
      {B : Type κ} (P : A → Type 0) (Q : B → Type 0) (r : Outcome E A) (f : A → Outcome E B)
      → Returns r P
      → ((a : A) → P a → Returns (f a) Q)
      → Returns (r >>= f) Q
  Returns-bind P Q (ok a) f h k = k a h
  Returns-bind P Q (err e) f h k = h

-- A chain of two calls that returns, taken apart: what the first one returned, and that the second
-- returned from it.
module _ {ℓ κ μ} {E : Type μ} {A : Type ℓ} {B : Type κ} where
  pub bind-ok :
      (first : Outcome E A) (next : A → Outcome E B) {result : B}
      (done : (first >>= next) ≡ ok result)
      → (middle : A) × (first ≡ ok middle) × (next middle ≡ ok result)
  bind-ok (err e) next done = absurd (cc)
  bind-ok (ok middle) next done = (middle, refl, done)

-- The parts of equal pairs that were returned.
pub ok-first {ℓ κ μ} :
    {E : Type μ} {A : Type ℓ} {B : Type κ} {a a' : A} {b b' : B}
    → ◌≡◌ {A = Outcome E (A × B)} (ok (a, b)) (ok (a', b'))
    → a ≡ a'
ok-first h = cc h

pub ok-second {ℓ κ μ} :
    {E : Type μ} {A : Type ℓ} {B : Type κ} {a a' : A} {b b' : B}
    → ◌≡◌ {A = Outcome E (A × B)} (ok (a, b)) (ok (a', b'))
    → b ≡ b'
ok-second h = cc h

pub ok-value {ℓ μ} :
    {E : Type μ} {A : Type ℓ} {a b : A} → ◌≡◌ {A = Outcome E A} (ok a) (ok b) → a ≡ b
ok-value h = cc h

pub some-value {ℓ} : {A : Type ℓ} {a b : A} → some a ≡ some b → a ≡ b
some-value h = cc h
